-- ===== src/Environment/FromOs.antt =====
-- pkg/runner/environment.go: the environment of the process, and the one made of keys and values.
use Prim.Native.Char.{code}
use step_runner.Common.{
  ◌==◌, if◌then◌else◌, ℕ, String, Bool, true, false, not, ◌||◌, Option, none, some, List, [], ◌∷◌,
  Map, put, str_eq, errorf, panic, Result, ok, err,
}
use step_runner.Environment.{Heap, new_environment}

-- strings.Cut(s, "=")
unfoldable pub cut : String → Option (String × String)
cut String.[] = none
cut (String.◌∷◌ c s) =
    let rest = cut s in
    if code c == b'='
    then some ("", s)
    else elim rest [ none ↦ none | some (name, value) ↦ some (String.◌∷◌ c name, value) ]

-- acceptEnvName
unfoldable pub accept_env_name : String → List (String → Bool) → Bool
accept_env_name name [] = true
accept_env_name name (reject_if ∷ fs) =
    let rest = accept_env_name name fs in if reject_if name then false else rest

abbrev pub accept_into : Bool → String → String → Map String → Map String
accept_into true name value vars = put name value vars
accept_into false name value vars = vars

-- the loop of NewEnvironmentFromOS over os.Environ(), with what it has so far
unfoldable pub vars_from : List (String → Bool) → Map String → List String → Result (Map String)
unfolding cut accept_env_name
vars_from reject_if vars [] = ok vars
vars_from reject_if vars (name_value ∷ environ) = elim (cut name_value) [
  | none ↦ err (errorf "failed to parse environment variable: %s" (name_value ∷ []))
  | some (name, value) ↦
      vars_from reject_if (accept_into (accept_env_name name reject_if) name value vars) environ
]

abbrev with_environment : Heap → Result (Map String) → Result (ℕ × Heap)
with_environment h (err e) = err e
with_environment h (ok vars) = ok (new_environment vars h)

-- NewEnvironmentFromOS
unfoldable pub new_environment_from_os :
    List (String → Bool) → List String → Heap → Result (ℕ × Heap)
unfolding vars_from new_environment
new_environment_from_os reject_if environ h = with_environment h (vars_from reject_if [] environ)

abbrev pub known_vars : List String
known_vars =
    "HTTPS_PROXY" ∷ "HTTP_PROXY" ∷ "LANG" ∷ "LC_ALL" ∷ "LC_CTYPE" ∷ "LOGNAME" ∷ "NO_PROXY" ∷ "PATH"
    ∷ "SHELL" ∷ "TERM" ∷ "TMPDIR" ∷ "TZ" ∷ "USER" ∷ "all_proxy" ∷ "http_proxy" ∷ "https_proxy"
    ∷ "no_proxy" ∷ []

-- slices.Contains
unfoldable pub contains_text : List String → String → Bool
contains_text [] s = false
contains_text (t ∷ ts) s = str_eq t s || contains_text ts s

-- NewEnvironmentFromOSWithKnownVars
unfoldable pub new_environment_from_os_with_known_vars : List String → Heap → Result (ℕ × Heap)
unfolding new_environment_from_os contains_text
new_environment_from_os_with_known_vars environ h =
    new_environment_from_os ((λ name. not (contains_text known_vars name)) ∷ []) environ h

-- the loop of NewKVEnvironment
unfoldable pub kv_vars : Map String → List String → Result (Map String)
kv_vars vars [] = ok vars
kv_vars vars (k ∷ []) = err (panic "NewEnvironmentFromValues: odd argument count")
kv_vars vars (k ∷ v ∷ key_values) = kv_vars (put k v vars) key_values

-- NewKVEnvironment
unfoldable pub new_kv_environment : List String → Heap → Result (ℕ × Heap)
unfolding kv_vars new_environment
new_kv_environment key_values h = with_environment h (kv_vars [] key_values)
