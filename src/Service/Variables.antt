-- ===== src/Service/Variables.antt =====
-- pkg/api/internal/variables/variables.go: the variables of a job. A file variable stands for the path
-- of a file that holds its value.
use step_runner.Common.{
  if◌then◌else◌, String, Bool, true, false, Option, none, some, List, [], ◌∷◌, Map, put, join_path,
  errorf, Result, map,
}
use step_runner.Runner.Host.{M, try, give, in_world, wrapped, fail}

-- the message Variable
pub record Message : Type 0 where
  pub key : String
  pub value : String
  pub file : Bool
  pub masked : Bool

pub record Variable : Type 0 where
  pub v : Message
  pub tmp_path : String

-- Value
unfoldable pub value_of_variable : Variable → String
unfolding join_path
value_of_variable v = if v.v.file then join_path (v.tmp_path ∷ v.v.key ∷ []) else v.v.value

-- New
abbrev pub new_variables : List Message → String → List Variable
new_variables vars tmp_path = map (λ v. record { v = v; tmp_path = tmp_path }) vars

-- os.WriteFile with the path and the content
abbrev pub WriteFile : Type 0 → Type 0
WriteFile W = String → String → W → Result (Unit {0}) × W

-- the map that Prepare makes
unfoldable pub out_env : List Variable → Map String → Map String
unfolding value_of_variable
out_env [] env = env
out_env (v ∷ vs) env = out_env vs (put v.v.key (value_of_variable v) env)

module _ {W : Type 0} (write_file : WriteFile W) where
  -- Variable.Write
  unfoldable pub write_variable : Variable → M W (Result (Unit {0}))
  unfolding value_of_variable
  write_variable v s = elim v.v.file [
    | true ↦ in_world (write_file (value_of_variable v) v.v.value) s
    | false ↦ fail (errorf "variable %q is not a file variable" (v.v.key ∷ [])) s
  ]

  -- Variables.Write
  unfoldable pub write_variables : List Variable → M W (Result (Unit {0}))
  unfolding write_variable
  write_variables [] s = give tt s
  write_variables (v ∷ vs) s = elim v.v.file [
    | false ↦ write_variables vs s
    | true ↦
        try (wrapped "writing file variable %q: %w" (v.v.key ∷ []) (write_variable v))
          (λ u. write_variables vs) s
  ]

  -- Prepare, of the variables of a job if there is one
  unfoldable pub prepare : Option (List Message) → String → M W (Result (Map String))
  unfolding write_variables out_env
  prepare none tmp_path = give []
  prepare (some vars) tmp_path =
      let job_vars = new_variables vars tmp_path in
      try (wrapped "preparing variables: %w" [] (write_variables job_vars))
        λ u. give (out_env job_vars [])
