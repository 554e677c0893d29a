-- ===== src/Expression/Interpolate/Expansion.antt =====
-- What `Expand` does to values without expressions, and to the mark of sensitivity.
use Prim.Native.Char.{Char}
use native.Mathlib.Omega.{arith}
use step_runner.Common.{
  ℕ, zero, suc, String, ◌≡◌, refl, ◌∙◌, chars, Bool, false, List, [], ◌∷◌, of_chars, of_chars-chars,
  ok, >>=-eq-ok,
}
use step_runner.Value.{
  Value, string, struct, list, Fields, end, field, Items, nil, cons, Evaluated,
  new_non_sensitive_value, Variable, assign,
}
use step_runner.Expression.Dig.{Object, Codec, evaluate}
use step_runner.Expression.Interpolate.{
  interpolate_open, interpolate_close, Mark, Match, Scan, initial, add_prefix, on_mark, on_close,
  find_all, scan, close_scan, concat, join_output, interpolate_string, expand, expand_struct,
  expand_list,
}
use step_runner.Expression.Interpolate.Marks.{IsClean}
use step_runner.Expression.Interpolate.Templates.{
  outputs, with_literal, evaluate-insensitive, interpolate_string-render,
}

-- No text in the value holds a mark.
abbrev mutual
  pub IsPlain : Value → Type 0
  IsPlain (string s) = IsClean (chars s) []
  IsPlain (struct fs) = IsPlainFields fs
  IsPlain (list vs) = IsPlainItems vs
  IsPlain v = Unit

  pub IsPlainFields : Fields → Type 0
  IsPlainFields end = Unit
  IsPlainFields (field k v fs) = IsPlain v × IsPlainFields fs

  pub IsPlainItems : Items → Type 0
  IsPlainItems nil = Unit
  IsPlainItems (cons v vs) = IsPlain v × IsPlainItems vs

join_output-literal :
    (codec : Codec) (l : List Char)
    → join_output codec (with_literal l []) false []
      ≡ ok (new_non_sensitive_value (string (of_chars l)))
unfolding join_output concat
join_output-literal codec [] = refl
join_output-literal codec (c ∷ l) = refl

pub interpolate_string-clean :
    (codec : Codec) (obj : Object) (s : String)
    → IsClean (chars s) []
    → interpolate_string codec obj s ≡ ok (new_non_sensitive_value (string s))
unfolding outputs
interpolate_string-clean codec obj s clean =
    let e = interpolate_string-render codec obj (chars s) [] clean in
    let same : of_chars (chars s) ≡ s = of_chars-chars s in
    rw same at (e ∙ join_output-literal codec (chars s))

mutual
  unfolding expand

  expand-plain :
      (codec : Codec) (obj : Object) (v : Value)
      → IsPlain v
      → expand codec obj v ≡ ok (new_non_sensitive_value v)
  expand-plain codec obj (string s) clean = interpolate_string-clean codec obj s clean
  expand-plain codec obj (struct fs) clean = rw (expand_struct-plain codec obj fs clean)
  expand-plain codec obj (list vs) clean = rw (expand_list-plain codec obj vs clean)
  expand-plain codec obj _ clean = refl

  expand_struct-plain :
      (codec : Codec) (obj : Object) (fs : Fields)
      → IsPlainFields fs
      → expand_struct codec obj fs ≡ ok fs
  expand_struct-plain codec obj end clean = refl
  expand_struct-plain codec obj (field k v fs) (here, clean) =
      rw (expand-plain codec obj v here, expand_struct-plain codec obj fs clean)

  expand_list-plain :
      (codec : Codec) (obj : Object) (vs : Items)
      → IsPlainItems vs
      → expand_list codec obj vs ≡ ok vs
  expand_list-plain codec obj nil clean = refl
  expand_list-plain codec obj (cons v vs) (here, clean) =
      rw (expand-plain codec obj v here, expand_list-plain codec obj vs clean)

-- A value in which no text holds `${{` or `}}` expands to itself, at every depth, whatever the step
-- can see, and the result is not marked as sensitive.
pub expand-IsPlain :
    (codec : Codec) (obj : Object) (v : Value)
    → IsPlain v
    → expand codec obj v ≡ ok (new_non_sensitive_value v)
expand-IsPlain codec obj v clean = expand-plain codec obj v clean

module _ (codec : Codec) (obj : Object) (value : List Char) where
  on_close-insensitive :
      (depth : ℕ) (m : Match) (s t : Scan)
      → s.sensitive ≡ false
      → on_close codec obj value depth m s ≡ ok t
      → t.sensitive ≡ false
  unfolding on_close
  on_close-insensitive zero m s t h e = cc
  on_close-insensitive (suc (suc depth)) m s t h e = ground arith
  on_close-insensitive (suc zero) m s t h e =
      let (v, evaluated, same) = >>=-eq-ok (evaluate codec obj _) _ e in
      ground (arith, evaluate-insensitive codec obj _ v evaluated)

  on_mark-insensitive :
      (mark : Mark) (m : Match) (s t : Scan)
      → s.sensitive ≡ false
      → on_mark codec obj value mark m (add_prefix codec obj value m s) ≡ ok t
      → t.sensitive ≡ false
  on_mark-insensitive interpolate_open m s t h e = ground arith
  on_mark-insensitive interpolate_close m s t h e =
      on_close-insensitive s.depth m (add_prefix codec obj value m s) t h e

  scan-insensitive :
      (ms : List Match) (s t : Scan)
      → s.sensitive ≡ false
      → scan codec obj value ms s ≡ ok t
      → t.sensitive ≡ false
  unfolding scan
  scan-insensitive [] s t h e = ground arith
  scan-insensitive (m ∷ ms) s t h e =
      let (next, marked, rest) =
        >>=-eq-ok (on_mark codec obj value m.mark m (add_prefix codec obj value m s))
          (scan codec obj value ms) e in
      scan-insensitive ms next t (on_mark-insensitive m.mark m s next h marked) rest

  close_scan-insensitive :
      (s t : Scan) → s.sensitive ≡ false → close_scan value s ≡ ok t → t.sensitive ≡ false
  unfolding close_scan
  close_scan-insensitive s t h e = ground arith

join_output-insensitive :
    (codec : Codec) (output : List Value) (sensitive : Bool) (reasons : List String) (e : Evaluated)
    → sensitive ≡ false
    → join_output codec output sensitive reasons ≡ ok e
    → e.sensitive ≡ false
unfolding join_output
join_output-insensitive codec (o ∷ []) sensitive reasons e h same = ground arith
join_output-insensitive codec [] sensitive reasons e h same = ground arith
join_output-insensitive codec (o ∷ p ∷ os) sensitive reasons e h same =
    let (res, concatenated, done) = >>=-eq-ok (concat codec "" (o ∷ p ∷ os)) _ same in ground arith

interpolate_string-insensitive :
    (codec : Codec) (obj : Object) (s : String) (e : Evaluated)
    → interpolate_string codec obj s ≡ ok e
    → e.sensitive ≡ false
unfolding interpolate_string
interpolate_string-insensitive codec obj s e h =
    let value = chars s in
    let (scanned, p, h₁) = >>=-eq-ok (scan codec obj value (find_all 0 0 value) initial) _ h in
    let (closed, q, h₂) = >>=-eq-ok (close_scan value scanned) _ h₁ in
    join_output-insensitive codec closed.output closed.sensitive closed.sensitive_reasons e
      (close_scan-insensitive codec obj value scanned closed
        (scan-insensitive codec obj value _ initial scanned refl p) q)
      h₂

expand-insensitive :
    (codec : Codec) (obj : Object) (v : Value) (e : Evaluated)
    → expand codec obj v ≡ ok e
    → e.sensitive ≡ false
unfolding expand
expand-insensitive codec obj (string s) e h = interpolate_string-insensitive codec obj s e h
expand-insensitive codec obj (struct fs) e h = ground arith
expand-insensitive codec obj (list vs) e h = ground arith
expand-insensitive codec obj _ e h = ground arith

-- No value that `Expand` returns is marked as sensitive, so the guard of `Assign` never refuses one:
-- a variable, sensitive or not, takes every value that an expression produces.
pub assign-expand :
    (codec : Codec) (obj : Object) (v : Value) (e : Evaluated) (x : Variable)
    → expand codec obj v ≡ ok e
    → (e.sensitive ≡ false) × (assign x e ≡ ok (record x { value = e.value }))
unfolding assign
assign-expand codec obj v e x h =
    let public = expand-insensitive codec obj v e h in (public, rw public)
