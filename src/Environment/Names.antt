-- ===== src/Environment/Names.antt =====
-- An environment that a process is started with, as the process reads it.
use Prim.Native.Char.{code}
use step_runner.Common.{
  ◌==◌, if◌then◌else◌, String, ◌≡◌, refl, ap, ◌∙◌, Bool, true, false, not, ◌&&◌, Option, none, some,
  List, [], ◌∷◌, Map, lookup, lookup-put, str_eq, eq_iff, append, append-empty, append-cons, ok,
  arith, or_else, inl, inr, Bool-cases,
}
use step_runner.Environment.FromOs.{cut, accept_env_name, accept_into, vars_from}
use step_runner.Runner.Context.{env_list}

-- A name without an equality sign.
unfoldable pub is_name : String → Bool
is_name String.[] = true
is_name (String.◌∷◌ c s) = not (code c == b'=') && is_name s

pub cut-append : (k v : String) → is_name k ≡ true → cut (append k (append "=" v)) ≡ some (k, v)
unfolding cut is_name
cut-append String.[] v h =
    rw (append-empty (append "=" v), append-cons "=" "" v, append-empty v) refl
cut-append (String.◌∷◌ c k) v h = rw (append-cons c k (append "=" v)) ground (arith, cut-append k v)

-- The value that the last entry of a name gives it.
unfoldable pub last_value : String → Map String → Option String
last_value k [] = none
last_value k ((j, v) ∷ m) = or_else (last_value k m) (if str_eq j k then some v else none)

unfoldable pub has_names : Map String → Bool
unfolding is_name
has_names [] = true
has_names ((k, v) ∷ m) = is_name k && has_names m

lookup-accept_into :
    (reject_if : List (String → Bool)) (j k v : String) (vars : Map String)
    → (if accept_env_name k reject_if
        then lookup k (accept_into (accept_env_name j reject_if) j v vars)
        else lookup k (accept_into (accept_env_name j reject_if) j v vars))
      ≡ (if accept_env_name k reject_if
          then or_else (if str_eq j k then some v else none) (lookup k vars)
          else lookup k vars)
lookup-accept_into reject_if j k v vars = elim (Bool-cases (str_eq j k)) [
  | inl q ↦
      let same : accept_env_name j reject_if ≡ accept_env_name k reject_if =
        ap (λ n. accept_env_name n reject_if) ((eq_iff j k).0 q) in
      let e = lookup-put j k v vars in ground arith
  | inr q ↦ let e = lookup-put j k v vars in ground arith
]

pub after_accept :
    (accept : Bool) (last next own old : Option String)
    → (if accept then next else next) ≡ (if accept then or_else own old else old)
    → (if accept then or_else last next else next)
      ≡ (if accept then or_else (or_else last own) old else old)
after_accept false last next own old h = h
after_accept true none next own old h = h
after_accept true (some v) next own old h = refl

vars_from-env_list :
    (reject_if : List (String → Bool)) (m vars : Map String) (k : String)
    → has_names m ≡ true
    → (read : Map String) × (vars_from reject_if vars (env_list m) ≡ ok read)
      × (lookup k read ≡ (
          if accept_env_name k reject_if
          then or_else (last_value k m) (lookup k vars)
          else lookup k vars))
unfolding vars_from has_names last_value
vars_from-env_list reject_if [] vars k h = (vars, refl, ground arith)
vars_from-env_list reject_if ((j, v) ∷ m) vars k h =
    let next = accept_into (accept_env_name j reject_if) j v vars in
    let (read, done, found) = vars_from-env_list reject_if m next k (ground arith) in
    let first = cut-append j v (ground arith) in
    let entered =
      after_accept (accept_env_name k reject_if) (last_value k m) (lookup k next)
        (if str_eq j k then some v else none) (lookup k vars)
        (lookup-accept_into reject_if j k v vars) in
    (read, rw (first, vars_from) done, found ∙ entered)

without_old :
    (accept : Bool) (last : Option String)
    → (if accept then or_else last none else none) ≡ (if accept then last else none)
without_old false last = refl
without_old true none = refl
without_old true (some v) = refl

-- What a process reads of the environment that a step hands to it, if no name has an equality
-- sign: of each name that is accepted the value that stands last, and of other names none.
pub vars_from-last_value :
    (reject_if : List (String → Bool)) (m : Map String) (k : String)
    → has_names m ≡ true
    → (read : Map String) × (vars_from reject_if [] (env_list m) ≡ ok read)
      × (lookup k read ≡ (if accept_env_name k reject_if then last_value k m else none))
unfolding lookup
vars_from-last_value reject_if m k h =
    let (read, done, found) = vars_from-env_list reject_if m [] k h in
    (read, done, found ∙ without_old (accept_env_name k reject_if) (last_value k m))
