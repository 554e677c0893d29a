-- ===== src/Runner/GlobalEnv/Level.antt =====
-- What the global environment of a job holds.
use step_runner.Common.{
  ℕ, suc, String, ◌≡◌, refl, Bool, true, Bool-cases, ◌||◌, Option, none, some, Option-cases, [],
  ◌∷◌, ◌++◌, Map, text_at, lookup, copy, put, or_else, length, length-append, get_elem?,
  get_elem?-concat, ok, err, str_eq, if◌then◌else◌, arith, inl, inr, ◌∙◌,
}
use step_runner.Environment.{
  Env, Heap, values, values_in, value_of, values_of, parent_values, mutation_values,
  new_environment, add_lexical_scope,
}
use step_runner.Environment.Sharing.{add_lexical_scope-IsScoped, values-concat}
use step_runner.Runner.GlobalEnv.{
  log_level_env_name, normalised, accept_level, log_level, with_level, global_environment,
}

abbrev pub is_level : String → Bool
is_level s = str_eq s "info" || str_eq s "debug" || str_eq s "warn" || str_eq s "error"

-- The environment `e` has a log level that is supported, and all else from its parent.
pub record HasLevel (h : Heap) (e : ℕ) (inherited : Map String) : Type 0 where
  pub level : String
  pub supported : is_level level ≡ true
  pub vars : Map String
  pub reads : values h e ≡ some vars
  pub at_key :
      (key : String)
      → lookup key vars
        ≡ (if str_eq log_level_env_name key then some level else lookup key inherited)

accept_level-is_level :
    (s : String) (m : Map String)
    → accept_level s ≡ ok m
    → (v : String) × (m ≡ (log_level_env_name, v) ∷ []) × (is_level v ≡ true)
unfolding accept_level
accept_level-is_level s m h = elim (Bool-cases (str_eq s "" || str_eq s "info")) [
  | inl hit ↦ ("info", ground arith, refl)
  | inr not_info ↦ elim (Bool-cases (str_eq s "debug")) [
    | inl hit ↦ ("debug", ground arith, refl)
    | inr not_debug ↦ elim (Bool-cases (str_eq s "warn")) [
      | inl hit ↦ ("warn", ground arith, refl)
      | inr not_warn ↦ elim (Bool-cases (str_eq s "error")) [
        | inl hit ↦ ("error", ground arith, refl)
        | inr not_error ↦ ground arith
      ]
    ]
  ]
]

pub values-new :
    (vars : Map String) (h : Heap)
    → values (new_environment vars h).1 (new_environment vars h).0 ≡ some (copy [] vars)
unfolding values values_in values_of parent_values mutation_values new_environment
values-new vars h =
    let cell : Env = record { vars = vars; parent = none; mutations = [] } in
    let last : get_elem? (h ++ cell ∷ []) (length h) ≡ some cell =
      ground (arith, get_elem?-concat h cell (length h)) in
    let longer : length (h ++ cell ∷ []) ≡ suc (length h) =
      omega (arith, length-append h (cell ∷ [])) in
    rw (longer, last) refl

log_level-is_level :
    (h : Heap) (parent : ℕ) (job_vars : Map String) (level : Map String)
    → log_level h parent job_vars ≡ some (ok level)
    → (v : String) × (level ≡ (log_level_env_name, v) ∷ []) × (is_level v ≡ true)
unfolding log_level
log_level-is_level h parent job_vars level made =
    elim (Bool-cases (str_eq (normalised (text_at log_level_env_name job_vars)) "")) [
      | inr given ↦
          accept_level-is_level (normalised (text_at log_level_env_name job_vars)) level
            (ground arith)
      | inl empty ↦ elim (Option-cases (value_of h parent log_level_env_name)) [
        | inl never ↦ ground arith
        | inr (x, found) ↦ accept_level-is_level (normalised x) level (ground arith)
      ]
    ]

values-parent :
    (vars m : Map String) (h : Heap) (parent : ℕ)
    → values h parent ≡ some m
    → values (new_environment vars h).1 parent ≡ some m
unfolding new_environment
values-parent vars m h parent read =
    values-concat h (record { vars = vars; parent = none; mutations = [] }) parent m read

lookup-one :
    (key v : String) (o : Option String)
    → or_else (lookup key ((log_level_env_name, v) ∷ [])) o
      ≡ (if str_eq log_level_env_name key then some v else o)
unfolding lookup
lookup-one key v o = ground arith

scope-HasLevel :
    (h : Heap) (parent : ℕ) (v : String) (m : Map String)
    → is_level v ≡ true
    → values h parent ≡ some m
    → HasLevel
        (add_lexical_scope parent ((log_level_env_name, v) ∷ []) h).1
        (add_lexical_scope parent ((log_level_env_name, v) ∷ []) h).0
        m
scope-HasLevel h parent v m supported read =
    let seen =
      add_lexical_scope-IsScoped parent parent ((log_level_env_name, v) ∷ []) h m m read read in
    record {
      level = v;
      supported = supported;
      vars = seen.scoped;
      reads = seen.reads_scoped;
      at_key = λ key. seen.in_scope key ∙ lookup-one key v (lookup key m);
    }

with_level-HasLevel :
    (h h' : Heap) (parent e : ℕ) (v : String) (m : Map String)
    → is_level v ≡ true
    → values h parent ≡ some m
    → with_level parent ((log_level_env_name, v) ∷ []) h ≡ some (e, h')
    → HasLevel h' e m
unfolding with_level copy put
with_level-HasLevel h h' parent e v m supported read made =
    let vars : Map String = (log_level_env_name, v) ∷ [] in
    let h₁ = (new_environment vars h).1 in
    let same : add_lexical_scope parent vars h₁ ≡ (e, h') = ground (arith, values-new vars h) in
    let found = scope-HasLevel h₁ parent v m supported (values-parent vars m h parent read) in
    rw same at found

-- When GlobalEnvironment returns an environment, its log level is one of info, debug, warn and error,
-- and every other key has the value that it has in the parent.
pub global_environment-HasLevel :
    (parent : ℕ) (job_vars m : Map String) (h h' : Heap) (e : ℕ)
    → values h parent ≡ some m
    → global_environment parent job_vars h ≡ some (ok e, h')
    → HasLevel h' e m
unfolding global_environment
global_environment-HasLevel parent job_vars m h h' e read made =
    elim (Option-cases (log_level h parent job_vars)) [
      | inl never ↦ ground arith
      | inr (err f, refused) ↦ ground arith
      | inr (ok level, accepted) ↦
          let (v, same, supported) = log_level-is_level h parent job_vars level accepted in
          elim (Option-cases (with_level parent level h)) [
            | inl never ↦ ground arith
            | inr ((e', h₁), got) ↦
                let here : e' ≡ e = ground arith in
                let heap : h₁ ≡ h' = ground arith in
                let done : with_level parent level h ≡ some (e, h') = ground arith in
                with_level-HasLevel h h' parent e v m supported read (rw same at done)
          ]
    ]
