-- ===== src/Expression/Interpolate/Templates.antt =====
-- The loop over indices computes what its text, cut at the marks, means.
use Prim.Native.Char.{Char}
use native.Mathlib.Omega.{arith}
use mathlib.Core.List.{append-nil, append_assoc}
use step_runner.Common.{
  ℕ, suc, ◌+◌, ◌-◌, String, ◌≡◌, refl, ap, sym, ◌∙◌, false, true, List, [], ◌∷◌, ◌++◌, length, take,
  drop, of_chars, chars-of_chars, Result, ok, err, ◌>>=◌, length-append, ◌==◌,
}
use step_runner.Value.{Value, string, Evaluated}
use step_runner.Expression.Dig.{Object, Codec, evaluate}
use step_runner.Expression.Interpolate.{
  interpolate_open, interpolate_close, Match, Scan, add_evaluated, slice, scan, close_scan,
  on_close, join_output, interpolate_string,
}
use step_runner.Expression.Interpolate.Marks.{
  Parts, open_chars, close_chars, render, matches, match_at, IsWellCut, find_all-render,
}

abbrev pub with_literal : List Char → List Value → List Value
with_literal [] rest = rest
with_literal (c ∷ l) rest = string (of_chars (c ∷ l)) ∷ rest

-- The values of the parts in order: literals as they are, none for an empty one, and expressions
-- evaluated from the left, up to the first error.
unfoldable pub outputs : Codec → Object → List Char → Parts → Result (List Value)
outputs codec obj lit [] = ok (with_literal lit [])
outputs codec obj lit ((e, l) ∷ ps) = evaluate codec obj (of_chars e) >>= λ v.
    outputs codec obj l ps >>= λ rest. ok (with_literal lit (v.value ∷ rest))

drop-append {ℓ} : {A : Type ℓ} (xs ys : List A) → drop (length xs) (xs ++ ys) ≡ ys
drop-append [] ys = refl
drop-append (x ∷ xs) ys = drop-append xs ys

take-append {ℓ} : {A : Type ℓ} (xs ys : List A) → take (length xs) (xs ++ ys) ≡ xs
take-append [] ys = refl
take-append (x ∷ xs) ys = ap (λ t. x ∷ t) (take-append xs ys)

slice-append :
    (i j : ℕ) (a b c : List Char)
    → i ≡ length a
    → j ≡ length a + length b
    → slice (a ++ (b ++ c)) i j ≡ of_chars b
slice-append i j a b c p q =
    rw (p, q, drop-append a (b ++ c))
      (let e : length a + length b - length a ≡ length b = omega arith in rw (e, take-append b c))

pub evaluate-insensitive :
    (codec : Codec) (obj : Object) (s : String) (v : Evaluated)
    → evaluate codec obj s ≡ ok v
    → v.sensitive ≡ false
unfolding evaluate
evaluate-insensitive codec obj s v h = ground arith

-- The state between two parts.
abbrev at_rest : List Value → ℕ → ℕ → Scan
at_rest out n from = record {
  output = out;
  depth = 0;
  prev_idx = n;
  open_idx = from;
  sensitive = false;
  sensitive_reasons = [];
}

abbrev literal_out : List Char → List Value → List Value
literal_out [] out = out
literal_out (c ∷ l) out = out ++ string (of_chars (c ∷ l)) ∷ []

slice-literal :
    (value pre lit rest : List Char)
    → value ≡ pre ++ (lit ++ rest)
    → slice value (length pre) (length pre + length lit) ≡ of_chars lit
slice-literal value pre lit rest cut = rw cut (slice-append _ _ pre lit rest refl refl)

slice-expression :
    (value pre lit e rest : List Char)
    → value ≡ pre ++ (lit ++ (open_chars ++ (e ++ rest)))
    → slice value (length pre + length lit + 3) (length pre + length lit + 3 + length e)
      ≡ of_chars e
slice-expression value pre lit e rest cut =
    let behind : List Char = pre ++ (lit ++ open_chars) in
    let size : length behind ≡ length pre + length lit + 3 =
      omega (arith, length-append pre (lit ++ open_chars), length-append lit open_chars) in
    let same : value ≡ behind ++ (e ++ rest) = cut ∙ (simp append_assoc) in
    rw same (slice-append _ _ behind e rest (sym size) (omega arith))

module _ (codec : Codec) (obj : Object) (value : List Char) (ms : List Match) where
  -- What follows an evaluation does not depend on marks of sensitivity: there are none.
  resume :
      (r : Result Evaluated) (s : Scan)
      → ((v : Evaluated) → r ≡ ok v → v.sensitive ≡ false)
      → ((r >>= λ inside. ok (add_evaluated codec obj value inside s)) >>= scan codec obj value ms)
        ≡ (r >>= λ v. scan codec obj value ms (record s { output = s.output ++ v.value ∷ [] }))
  resume (err e) s h = refl
  resume (ok v) s h = rw (h v refl)

  scan_part :
      (pre lit e rest : List Char) (out : List Value) (from : ℕ)
      → value ≡ pre ++ (lit ++ (open_chars ++ (e ++ rest)))
      → scan codec obj value
          (match_at (length pre + length lit) interpolate_open
            ∷ match_at (length pre + length lit + 3 + length e) interpolate_close
            ∷ ms)
          (at_rest out (length pre) from)
        ≡ (evaluate codec obj (of_chars e) >>= λ v. scan codec obj value ms (
            at_rest
              (literal_out lit out ++ v.value ∷ [])
              (length pre + length lit + 3 + length e + 2)
              (length pre + length lit + 3)))
  unfolding scan on_close
  scan_part pre [] e rest out from cut =
      let test : (length pre == length pre + 0) ≡ true = ground arith in
      rw (test, slice-expression value pre [] e rest cut)
        (resume (evaluate codec obj (of_chars e))
          (at_rest (literal_out [] out) (length pre + 0 + 3 + length e + 2) (length pre + 0 + 3))
          (evaluate-insensitive codec obj (of_chars e)))
  scan_part pre (c ∷ l) e rest out from cut =
      let test : (length pre == length pre + suc (length l)) ≡ false = ground arith in
      rw
        (test, slice-expression value pre (c ∷ l) e rest cut, slice-literal value pre (c ∷ l) _ cut)
        (resume (evaluate codec obj (of_chars e))
          (at_rest (literal_out (c ∷ l) out) (length pre + length (c ∷ l) + 3 + length e + 2)
            (length pre + length (c ∷ l) + 3))
          (evaluate-insensitive codec obj (of_chars e)))

join_result : Codec → Result (List Value) → Result Evaluated
join_result codec r = r >>= λ out. join_output codec out false []

literal_out-append :
    (lit : List Char) (out rest : List Value)
    → literal_out lit out ++ rest ≡ out ++ with_literal lit rest
literal_out-append [] out rest = refl
literal_out-append (c ∷ l) out rest = append_assoc out _ rest

-- The code behind the loop, from the state that the loop ends in.
abbrev finish : Codec → List Char → Result Scan → Result Evaluated
finish codec value r = r >>= λ scanned. close_scan value scanned >>= λ closed.
    join_output codec closed.output closed.sensitive closed.sensitive_reasons

finish_rest :
    (codec : Codec) (value pre lit : List Char) (out : List Value) (from : ℕ)
    → value ≡ pre ++ lit
    → finish codec value (ok (at_rest out (length pre) from))
      ≡ join_output codec (out ++ with_literal lit []) false []
unfolding close_scan
finish_rest codec value pre [] out from cut =
    let test : (length pre == length value) ≡ true =
      ground (arith, ap (λ (l : List Char). length l) cut, length-append pre []) in
    rw (test, append-nil out)
finish_rest codec value pre (c ∷ l) out from cut =
    let test : (length pre == length value) ≡ false =
      ground (arith, ap (λ (l : List Char). length l) cut, length-append pre (c ∷ l)) in
    rw (test, cut, drop-append pre (c ∷ l))

regroup :
    (codec : Codec) (lit : List Char) (out : List Value) (v : Value) (r : Result (List Value))
    → (r >>= λ q. join_output codec ((literal_out lit out ++ v ∷ []) ++ q) false []) ≡ (
        (r >>= λ rest. ok (with_literal lit (v ∷ rest))) >>= λ q.
        join_output codec (out ++ q) false [])
regroup codec lit out v (err e) = refl
regroup codec lit out v (ok rest) =
    ap (λ os. join_output codec os false [])
      (append_assoc (literal_out lit out) (v ∷ []) rest ∙ literal_out-append lit out (v ∷ rest))

module _ (codec : Codec) (obj : Object) (value : List Char) where
  after_part :
      (lit l : List Char) (ps : Parts) (out : List Value) (ms : List Match) (n m : ℕ)
      (r : Result Evaluated)
      → ((v : Evaluated)
          → finish codec value
              (scan codec obj value ms (at_rest (literal_out lit out ++ v.value ∷ []) n m))
            ≡ (outputs codec obj l ps >>= λ q.
                join_output codec ((literal_out lit out ++ v.value ∷ []) ++ q) false []))
      → finish codec value
          (r >>= λ v. scan codec obj value ms (at_rest (literal_out lit out ++ v.value ∷ []) n m))
        ≡ ((r >>= λ v. outputs codec obj l ps >>= λ rest. ok (with_literal lit (v.value ∷ rest)))
            >>= λ q. join_output codec (out ++ q) false [])
  after_part lit l ps out ms n m (err e) ih = refl
  after_part lit l ps out ms n m (ok v) ih =
      ih v ∙ regroup codec lit out v.value (outputs codec obj l ps)

  scan-render :
      (pre lit : List Char) (ps : Parts) (out : List Value) (from : ℕ)
      → value ≡ pre ++ render lit ps
      → finish codec value
          (scan codec obj value (matches (length pre) lit ps) (at_rest out (length pre) from))
        ≡ (outputs codec obj lit ps >>= λ q. join_output codec (out ++ q) false [])
  unfolding outputs
  scan-render pre lit [] out from cut =
      (unfold scan in finish_rest codec value pre lit out from cut)
  scan-render pre lit ((e, l) ∷ ps) out from cut =
      let before : List Char = pre ++ (lit ++ (open_chars ++ (e ++ close_chars))) in
      let size : length before ≡ length pre + length lit + 3 + length e + 2 = omega (
        arith,
        length-append pre (lit ++ (open_chars ++ (e ++ close_chars))),
        length-append lit (open_chars ++ (e ++ close_chars)),
        length-append open_chars (e ++ close_chars),
        length-append e close_chars,
      ) in
      let same : value ≡ before ++ render l ps = cut ∙ (simp append_assoc) in
      rw
        (scan_part codec obj value (matches (length pre + length lit + 3 + length e + 2) l ps) pre
          lit e (close_chars ++ render l ps) out from cut)
        (after_part lit l ps out (matches (length pre + length lit + 3 + length e + 2) l ps)
          (length pre + length lit + 3 + length e + 2) (length pre + length lit + 3)
          (evaluate codec obj (of_chars e))
          λ v. rw (← size) (
            scan-render before l ps (literal_out lit out ++ v.value ∷ [])
              (length pre + length lit + 3) same))

-- A text that is cut at its marks into literals and expressions expands to the values of the parts
-- in order, joined as one value: an error is that of the first expression that fails.
pub interpolate_string-render :
    (codec : Codec) (obj : Object) (lit : List Char) (ps : Parts)
    → IsWellCut lit ps
    → interpolate_string codec obj (of_chars (render lit ps))
      ≡ (outputs codec obj lit ps >>= λ out. join_output codec out false [])
unfolding interpolate_string
interpolate_string-render codec obj lit ps cut =
    rw (chars-of_chars (render lit ps), find_all-render 0 lit ps cut)
      (scan-render codec obj (render lit ps) [] lit ps [] 0 refl)
