-- ===== src/Runner/Host.antt =====
-- The state that a run works on, and what the runner calls outside the code that is modelled.
use step_runner.Common.{ℕ, String, Option, none, some, List, Error, Result, ok, err, wrapping}
use step_runner.Value.{Value}
use step_runner.Expression.Dig.{Codec}
use step_runner.Proto.{StepResult}
use step_runner.Schema.Model.{Compiler, Signature, Step}
use step_runner.Environment.{Heap}

-- The environments, and the rest of the world: files, processes, repositories, logs.
pub record State (W : Type 0) : Type 0 where
  pub heap : Heap
  pub world : W

-- A computation that may not return (`none`) and changes the state.
abbrev pub M : Type 0 → Type 0 → Type 0
M W A = State W → Option (A × State W)

module _ {W A B : Type 0} where
  -- Go on with the value of a computation.
  abbrev pub and_then : M W A → (A → M W B) → M W B
  and_then m f s = elim (m s) [ none ↦ none | some (a, s') ↦ f a s' ]

  -- Go on with the value of a result, or return its error.
  abbrev pub try : M W (Result A) → (A → M W (Result B)) → M W (Result B)
  try m f s = elim (m s) [
    | none ↦ none
    | some (ok a, s') ↦ f a s'
    | some (err e, s') ↦ some (err e, s')
  ]

  -- Go on with the value of a result, or with its error.
  abbrev pub attempt : M W (Result A) → (Error → M W B) → (A → M W B) → M W B
  attempt m on_error f s = elim (m s) [
    | none ↦ none
    | some (ok a, s') ↦ f a s'
    | some (err e, s') ↦ on_error e s'
  ]

module _ {W A : Type 0} where
  abbrev pub pure : A → M W A
  pure a s = some (a, s)

  abbrev pub give : A → M W (Result A)
  give a s = some (ok a, s)

  abbrev pub fail : Error → M W (Result A)
  fail e s = some (err e, s)

  abbrev pub lift : Result A → M W (Result A)
  lift r s = some (r, s)

  -- A call that changes the world.
  abbrev pub in_world : (W → A × W) → M W A
  in_world f s = let (a, w) = f s.world in some (a, record s { world = w })

  -- `fmt.Errorf` around the error of a call.
  abbrev pub wrapped : String → List String → M W (Result A) → M W (Result A)
  wrapped format args m s = elim (m s) [
    | none ↦ none
    | some (r, s') ↦ some (wrapping format args r, s')
  ]

-- What cmd.Run returns: its error, and the exit code of the process, -1 if it did not start.
pub record Ran : Type 0 where
  pub error : Option Error
  pub exit_code : ℕ

-- One line of a step file: StepFileLine
pub record FileLine : Type 0 where
  pub name : Option String
  pub value : Option Value

pub record Host (W : Type 0) : Type 0 where
  pub codec : Codec
  pub compiler : Compiler
  -- schema.LoadSteps: read, decode and validate a file
  pub load_steps : String → W → Result (Option Signature × Step) × W
  -- git.GitFetcher.Get and dist.Fetcher.Fetch: the directory of what was fetched
  pub git_get : (url version : String) → W → Result String × W
  pub dist_fetch : String → W → Result String × W
  -- Logln on the standard output of the job: the format, and the arguments that are texts
  pub write_log : (format : String) (args : List String) → W → Result (Unit {0}) × W
  -- NewStepFileInTmp and StepFile.Remove
  pub new_step_file : W → Result String × W
  pub remove_file : String → W → W
  -- the lines that a scanner finds in a file, json.Unmarshal of one, and protojson.Unmarshal of a file
  pub read_lines : String → W → Result (List String)
  pub decode_line : String → Result FileLine
  pub read_step_result : String → W → Result StepResult
  -- strconv.FormatFloat(v, 'f', -1, 64)
  pub format_float : ℕ → String
  -- exec.CommandContext with a directory, arguments and environment variables
  pub run_command : (dir : String) (args : List String) (env : List String) → W → Ran × W
