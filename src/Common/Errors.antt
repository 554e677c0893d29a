-- ===== src/Common/Errors.antt =====
-- Errors as values. `fmt.Errorf` keeps its format and its arguments that are texts, and a wrapped
-- error (`%w`) keeps what it wraps.
use Prim.Native.String.{String}
use mathlib.Core.Path.{◌≡◌, refl}
use mathlib.Core.Bool.{Bool, true, false, ◌||◌}
use mathlib.Core.Logic.{◌⊎◌, inl, inr}
use mathlib.Core.List.{List}

pub data Error : Type 0 where
  errorf : (format : String) (args : List String) → Error
  wrap : (format : String) (args : List String) → Error → Error
  -- errors.Join
  joined : Error → Error → Error
  -- context.Canceled and context.DeadlineExceeded
  canceled deadline_exceeded : Error
  -- an error that a library, the system or a parameter returns, with its text
  foreign : String → Error
  -- a run-time panic, which no caller of the model's functions recovers from
  panic : String → Error

pub data Result {ℓ} (A : Type ℓ) : Type ℓ where
  ok : A → Result A
  err : Error → Result A

abbrev pub is_ok {ℓ} : {A : Type ℓ} → Result A → Bool
is_ok (ok a) = true
is_ok (err e) = false

module _ {ℓ κ} {A : Type ℓ} {B : Type κ} where
  infixl 5 ◌>>=◌
  abbrev pub ◌>>=◌ : Result A → (A → Result B) → Result B
  err failed >>= next = err failed
  ok value >>= next = next value

  -- What a chain that succeeds went through.
  pub >>=-eq-ok :
      (r : Result A) (next : A → Result B) {last : B}
      → (r >>= next) ≡ ok last
      → (value : A) × (r ≡ ok value) × (next value ≡ ok last)
  >>=-eq-ok (err failed) next e = cc
  >>=-eq-ok (ok value) next e = (value, refl, e)

  pub is_ok-bind :
      (r : Result A) (next : A → Result B) → is_ok r ≡ false → is_ok (r >>= next) ≡ false
  is_ok-bind (err failed) next e = refl
  is_ok-bind (ok value) next e = cc

-- fmt.Errorf with %w. A panic is no error that a caller can wrap.
abbrev pub wrap_error : String → List String → Error → Error
wrap_error format args (panic p) = panic p
wrap_error format args e = wrap format args e

-- `if err != nil { return fmt.Errorf(format, args..., err) }`
abbrev pub wrapping {ℓ} : {A : Type ℓ} → String → List String → Result A → Result A
wrapping format args (ok a) = ok a
wrapping format args (err e) = err (wrap_error format args e)

-- errors.Is(err, context.Canceled) || errors.Is(err, context.DeadlineExceeded)
abbrev pub is_cancellation : Error → Bool
is_cancellation (errorf format args) = false
is_cancellation (wrap format args e) = is_cancellation e
is_cancellation (joined e f) = is_cancellation e || is_cancellation f
is_cancellation canceled = true
is_cancellation deadline_exceeded = true
is_cancellation (foreign text) = false
is_cancellation (panic text) = false

pub Result-cases {ℓ} :
    {A : Type ℓ} (r : Result A) → ((a : A) × (r ≡ ok a)) ⊎ ((e : Error) × (r ≡ err e))
Result-cases (ok a) = inl (a, refl)
Result-cases (err e) = inr (e, refl)
