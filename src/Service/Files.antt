-- ===== src/Service/Files.antt =====
-- pkg/api/internal/variables: where Prepare leaves the values of the variables of a job.
use step_runner.Common.{
  ◌⊎◌, if◌then◌else◌, String, ◌≡◌, refl, ap, sym, ◌∙◌, Bool, true, false, not, ◌&&◌, Option, some,
  List, [], ◌∷◌, ◌++◌, Map, put, lookup, lookup-put, all, str_eq, eq_refl, ok, arith, Result-cases,
  inl, inr, Bool-cases,
}
use step_runner.Runner.Host.{State, try, give, wrapped}
use step_runner.Service.Variables.{
  Message, Variable, value_of_variable, new_variables, WriteFile, out_env, write_variable,
  write_variables, prepare,
}

-- A file system: a file that was written holds its content, and other files keep theirs.
pub record FileSystem (W : Type 0) : Type 0 where
  pub write_file : WriteFile W
  pub read_file : String → W → Option String
  pub read_file-write_file :
      (p q content : String) (w w' : W)
      → write_file p content w ≡ (ok tt, w')
      → read_file q w' ≡ (if str_eq p q then some content else read_file q w)

-- No variable of the list has the key, and none is written to the path.
abbrev pub is_free : (key path : String) → List Variable → Bool
is_free key path =
    all (λ u. not (str_eq u.v.key key) && not (u.v.file && str_eq (value_of_variable u) path))

lookup-out_env :
    (key path : String) (vs : List Variable) (env : Map String)
    → is_free key path vs ≡ true
    → lookup key (out_env vs env) ≡ lookup key env
unfolding out_env
lookup-out_env key path [] env h = refl
lookup-out_env key path (u ∷ vs) env h = ground (
  arith,
  lookup-put u.v.key key (value_of_variable u) env,
  lookup-out_env key path vs (put u.v.key (value_of_variable u) env),
)

lookup-out_env_of_last :
    (before behind : List Variable) (v : Variable) (env : Map String)
    → is_free v.v.key (value_of_variable v) behind ≡ true
    → lookup v.v.key (out_env (before ++ v ∷ behind) env) ≡ some (value_of_variable v)
unfolding out_env
lookup-out_env_of_last [] behind v env h =
    let e = lookup-put v.v.key v.v.key (value_of_variable v) env in
    let q = eq_refl v.v.key in
    ground (
      arith,
      lookup-out_env v.v.key (value_of_variable v) behind (put v.v.key (value_of_variable v) env),
    )
lookup-out_env_of_last (u ∷ before) behind v env h =
    lookup-out_env_of_last before behind v (put u.v.key (value_of_variable u) env) h

module _ {W : Type 0} (fs : FileSystem W) where
  -- The loop writes the first variable, and goes on from there.
  write_variables-cons :
      (u : Variable) (vs : List Variable) (s s' : State W)
      → write_variables fs.write_file (u ∷ vs) s ≡ some (ok tt, s')
      → (w : W) × (write_variables fs.write_file vs (record s { world = w }) ≡ some (ok tt, s'))
        × ((path : String)
            → fs.read_file path w ≡ (
                if u.v.file && str_eq (value_of_variable u) path
                then some u.v.value
                else fs.read_file path s.world))
  unfolding write_variables write_variable
  write_variables-cons u vs s s' h =
      let path = value_of_variable u in
      let done = fs.write_file path u.v.value s.world in
      elim (Bool-cases u.v.file) [
        | inr plain ↦ (s.world, ground arith, λ p. ground arith)
        | inl is_file ↦ elim (Result-cases (done.0)) [
          | inl (t, wrote) ↦ (
            done.1,
            ground arith,
            λ p.
                let e = fs.read_file-write_file path p u.v.value s.world (done.1) (ground arith) in
                ground arith,
          )
          | inr (e, failed) ↦ absurd (ground arith)
        ]
      ]

  read_file-write_variables :
      (key path : String) (vs : List Variable) (s s' : State W)
      → is_free key path vs ≡ true
      → write_variables fs.write_file vs s ≡ some (ok tt, s')
      → fs.read_file path s'.world ≡ fs.read_file path s.world
  unfolding write_variables
  read_file-write_variables key path [] s s' free h = ground arith
  read_file-write_variables key path (u ∷ vs) s s' free h =
      let (w, rest, read) = write_variables-cons u vs s s' h in
      let later =
        read_file-write_variables key path vs (record s { world = w }) s' (ground arith) rest in
      let first = read path in ground arith

  read_file-write_variables_of_last :
      (before behind : List Variable) (v : Variable) (s s' : State W)
      → v.v.file ≡ true
      → is_free v.v.key (value_of_variable v) behind ≡ true
      → write_variables fs.write_file (before ++ v ∷ behind) s ≡ some (ok tt, s')
      → fs.read_file (value_of_variable v) s'.world ≡ some v.v.value
  read_file-write_variables_of_last [] behind v s s' is_file free h =
      let (w, rest, read) = write_variables-cons v behind s s' h in
      let kept =
        read_file-write_variables v.v.key (value_of_variable v) behind (record s { world = w }) s'
          free rest in
      let first = read (value_of_variable v) in
      let same = eq_refl (value_of_variable v) in ground arith
  read_file-write_variables_of_last (u ∷ before) behind v s s' is_file free h =
      let (w, rest, read) = write_variables-cons u (before ++ v ∷ behind) s s' h in
      read_file-write_variables_of_last before behind v (record s { world = w }) s' is_file free
        rest

-- A variable is in an environment: its value under its key, or, for a file variable, under its key the
-- path of a file that holds its value.
abbrev pub IsHeld : {W : Type 0} → FileSystem W → Message → Map String → W → Type 0
IsHeld fs v env w =
    ((v.file ≡ false) × (lookup v.key env ≡ some v.value))
    ⊎ ((v.file ≡ true)
        × ((path : String) × (lookup v.key env ≡ some path) × (fs.read_file path w ≡ some v.value)))

new_variables-append :
    (xs : List Message) (v : Message) (ys : List Message) (tmp_path : String)
    → new_variables (xs ++ v ∷ ys) tmp_path
      ≡ new_variables xs tmp_path
        ++ record { v = v; tmp_path = tmp_path } ∷ new_variables ys tmp_path
new_variables-append [] v ys tmp_path = refl
new_variables-append (x ∷ xs) v ys tmp_path =
    ap (λ t. record { v = x; tmp_path = tmp_path } ∷ t) (new_variables-append xs v ys tmp_path)

value_of_plain : (v : Variable) → v.v.file ≡ false → some (value_of_variable v) ≡ some v.v.value
unfolding value_of_variable
value_of_plain v h = rw h refl

module _ {W : Type 0} (fs : FileSystem W) where
  prepare-eq-ok :
      (vs : List Variable) (env : Map String) (s s' : State W)
      → try
          (wrapped "preparing variables: %w" [] (write_variables fs.write_file vs))
          (λ u. give (out_env vs []))
          s
        ≡ some (ok env, s')
      → (write_variables fs.write_file vs s ≡ some (ok tt, s')) × (out_env vs [] ≡ env)
  prepare-eq-ok vs env s s' h = (ground arith, ground arith)

  -- When Prepare succeeds, the variables that it returns have under a variable's key the value that
  -- the job gave it, or, for a file variable, the path of a file that now holds that value, if no
  -- later variable has the same key or is a file variable with the same path. A file that is written
  -- is relied on to hold its content, and other files to keep theirs.
  pub prepare-IsHeld :
      (before behind : List Message) (v : Message) (tmp_path : String) (env : Map String)
      (s s' : State W)
      → is_free v.key
          (value_of_variable (record { v = v; tmp_path = tmp_path }))
          (new_variables behind tmp_path)
        ≡ true
      → prepare fs.write_file (some (before ++ v ∷ behind)) tmp_path s ≡ some (ok env, s')
      → IsHeld fs v env s'.world
  unfolding prepare
  prepare-IsHeld before behind v tmp_path env s s' free h =
      let own : Variable = record { v = v; tmp_path = tmp_path } in
      let h' = rw (new_variables-append before v behind tmp_path) at h in
      let (written, made) =
        prepare-eq-ok (new_variables before tmp_path ++ own ∷ new_variables behind tmp_path) env s
          s' h' in
      let value =
        lookup-out_env_of_last (new_variables before tmp_path) (new_variables behind tmp_path) own
          [] free in
      let found : lookup v.key env ≡ some (value_of_variable own) = rw (sym made) value in
      elim (Bool-cases v.file) [
        | inl is_file ↦
            let content =
              read_file-write_variables_of_last fs (new_variables before tmp_path)
                (new_variables behind tmp_path) own s s' is_file free written in
            inr (is_file, (value_of_variable own, found, content))
        | inr plain ↦ inl (plain, found ∙ value_of_plain own plain)
      ]
