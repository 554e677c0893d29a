-- ===== src/Runner/StepFile/Outputs.antt =====
-- step_file.go: what ReadValues returns.
use native.Mathlib.Omega.{arith}
use text.Mathlib.TextEquality.{eq_iff}
use step_runner.Common.{
  String, ◌≡◌, refl, Bool, true, false, Bool-cases, Option, none, some, Option-cases, is_some,
  or_else, [], ◌∷◌, Map, lookup, put, lookup-put, ok, >>=-eq-ok, wrapping, str_eq, Result-cases,
  List, inl, inr, if◌then◌else◌,
}
use step_runner.Value.{Value}
use step_runner.Proto.{InputSpec}
use step_runner.Runner.StepFile.{
  want_type, type_name, check_output_type, check_declared, default_output, add_defaults,
  typed_values,
}

abbrev pub default_of : Option InputSpec → Option Value
default_of none = none
default_of (some spec) = spec.default

-- The value is one of a declared output, of the type that the declaration says.
pub record IsDeclared (specs : Map InputSpec) (key : String) (v : Value) : Type 0 where
  pub spec : InputSpec
  pub at_key : lookup key specs ≡ some spec
  pub of_type : want_type spec.type ≡ type_name v

-- A value is one of a declared output, of the declared type, or there is none.
abbrev pub is_of_type : Option InputSpec → Option Value → Bool
is_of_type spec none = true
is_of_type none (some v) = false
is_of_type (some spec) (some v) = str_eq (want_type spec.type) (type_name v)

-- What a step may return for its declared outputs: what it wrote, filled up by the defaults.
pub record IsFilled (specs : Map InputSpec) (m r : Map Value) : Type 0 where
  pub written : (key : String) → is_of_type (lookup key specs) (lookup key m) ≡ true
  pub filled :
      (key : String) → lookup key r ≡ or_else (lookup key m) (default_of (lookup key specs))
  pub present : (key : String) → is_some (lookup key r) ≡ is_some (lookup key specs)

check_output_type-ok :
    (spec : InputSpec) (v : Value) (format : String) (args : List String) (u : Unit {0})
    → wrapping format args (check_output_type spec.type v) ≡ ok u
    → want_type spec.type ≡ type_name v
unfolding check_output_type
check_output_type-ok spec v format args u h =
    ground (arith, eq_iff (want_type spec.type) (type_name v))

declared-parts :
    (specs : Map InputSpec) (k : String) (w : Value) (m : Map Value) (spec : InputSpec)
    (u : Unit {0})
    → lookup k specs ≡ some spec
    → check_declared specs ((k, w) ∷ m) ≡ ok u
    → (u' : Unit {0}) × (wrapping "read output file: key %q: %w"
          (k ∷ [])
          (check_output_type spec.type w)
        ≡ ok u')
      × (check_declared specs m ≡ ok u)
unfolding check_declared
declared-parts specs k w m spec u found h = elim (Result-cases (check_output_type spec.type w)) [
  | inl (u', e) ↦ (tt, ground arith, ground arith)
  | inr (e, f) ↦ ground arith
]

check_declared-IsDeclared :
    (specs : Map InputSpec) (m : Map Value) (u : Unit {0})
    → check_declared specs m ≡ ok u
    → (key : String) (v : Value) → lookup key m ≡ some v
    → IsDeclared specs key v
unfolding check_declared lookup
check_declared-IsDeclared specs [] u h key v at = cc
check_declared-IsDeclared specs ((k, w) ∷ m) u h key v at = elim (Option-cases (lookup k specs)) [
  | inl missing ↦ ground arith
  | inr (spec, found) ↦
      let (u', typed, rest) = declared-parts specs k w m spec u found h in
      elim (Bool-cases (str_eq k key)) [
        | inl same ↦
            let v_is : w ≡ v = ground arith in
            let keys : k ≡ key = ground (arith, eq_iff k key) in
            record {
              spec = spec;
              at_key = rw (← keys) found;
              of_type = rw (← v_is) (check_output_type-ok spec w _ _ u' typed);
            }
        | inr other ↦ check_declared-IsDeclared specs m u rest key v (ground arith)
      ]
]

-- what one declared output does to the map
or_else-none : (o : Option Value) → or_else o none ≡ o
or_else-none none = refl
or_else-none (some v) = refl

default_output-lookup :
    (name : String) (d : Option Value) (m m' : Map Value)
    → default_output name (lookup name m) d m ≡ ok m'
    → (key : String)
    → (lookup key m' ≡ or_else (lookup key m) (if str_eq name key then d else none))
      × (str_eq name key ≡ true → is_some (lookup key m') ≡ true)
default_output-lookup name d m m' h key = elim (Option-cases (lookup name m)) [
  | inr (v, found) ↦
      let same : m ≡ m' = ground arith in
      elim (Bool-cases (str_eq name key)) [
        | inl hit ↦
            let keys : name ≡ key = ground (arith, eq_iff name key) in
            let at : lookup key m ≡ some v = rw (← keys) found in (ground arith, λ a. ground arith)
        | inr other ↦ (ground (arith, or_else-none (lookup key m)), λ a. ground arith)
      ]
  | inl missing ↦ elim (Option-cases d) [
    | inl no_default ↦ ground arith
    | inr (v, given) ↦
        let same : put name v m ≡ m' = ground arith in
        let at : lookup key m' ≡ (if str_eq name key then some v else lookup key m) =
          rw (← same) (lookup-put name key v m) in
        elim (Bool-cases (str_eq name key)) [
          | inl hit ↦
              let keys : name ≡ key = ground (arith, eq_iff name key) in
              let no : lookup key m ≡ none = rw (← keys) missing in
              (ground arith, λ a. ground arith)
          | inr other ↦ (ground (arith, or_else-none (lookup key m)), λ a. ground arith)
        ]
  ]
]

-- a missing output has a default, so what is filled up holds it
add_defaults-lookup :
    (specs : Map InputSpec) (m r : Map Value)
    → add_defaults specs m ≡ ok r
    → (key : String)
    → (lookup key r ≡ or_else (lookup key m) (default_of (lookup key specs)))
      × (is_some (lookup key specs) ≡ true → is_some (lookup key r) ≡ true)
unfolding add_defaults lookup
add_defaults-lookup [] m r h key = (ground arith, λ a. ground arith)
add_defaults-lookup ((name, o) ∷ specs) m r h key =
    let (m', filled, rest) =
      >>=-eq-ok (default_output name (lookup name m) o.default m) (add_defaults specs) h in
    let (here, there) = add_defaults-lookup specs m' r rest key in
    let (step, hit) = default_output-lookup name o.default m m' filled key in
    (ground arith, λ a. ground arith)

-- When ReadValues returns, every value that the step wrote is of a declared output and of its declared
-- type, the returned value of a key is the written one, else the declared default, and exactly the
-- declared outputs have a value.
pub typed_values-IsFilled :
    (specs : Map InputSpec) (m r : Map Value) → typed_values specs m ≡ ok r → IsFilled specs m r
unfolding typed_values
typed_values-IsFilled specs m r h =
    let (u, declared, rest) = >>=-eq-ok (check_declared specs m) (λ _. add_defaults specs m) h in
    let written = check_declared-IsDeclared specs m u declared in
    record {
      written = λ key. elim (Option-cases (lookup key m)) [
        | inl nothing ↦ ground arith
        | inr (v, found) ↦
            let d = written key v found in
            let e = d.at_key in
            let t = d.of_type in ground (arith, eq_iff (want_type d.spec.type) (type_name v))
      ];
      filled = λ key. (add_defaults-lookup specs m r rest key).0;
      present = λ key.
          let (at, there) = add_defaults-lookup specs m r rest key in
          elim (Option-cases (lookup key specs)) [
            | inr (spec, found) ↦ ground arith
            | inl missing ↦ elim (Option-cases (lookup key m)) [
              | inl none_written ↦ ground arith
              | inr (v, found) ↦ let d = written key v found in let e = d.at_key in ground arith
            ]
          ];
    }
