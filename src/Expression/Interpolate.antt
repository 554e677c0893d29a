-- ===== src/Expression/Interpolate.antt =====
-- pkg/internal/expression/interpolation.go: the loop over the marks `${{` and `}}` of a text, and the
-- expansion of structured values.
pub mod Marks
pub mod Templates
pub mod Expansion
use Prim.Native.Char.{Char, code}
use mathlib.Core.Option
use step_runner.Common.{
  ℕ, zero, suc, ◌+◌, ◌-◌, String, Bool, true, false, ◌&&◌, Option, none, some, List, [], ◌∷◌, ◌++◌,
  length, take, drop, chars, of_chars, append, Error, errorf, Result, ok, err, ◌>>=◌, ◌==◌, ltb,
  if◌then◌else◌,
}
use step_runner.Value.{
  Value, string, struct, list, Fields, end, field, Items, nil, cons, Evaluated, new_value,
  new_string_value, new_non_sensitive_value,
}
use step_runner.Expression.Dig.{Object, Codec, evaluate, value_to_string}

-- what the regular expression `\$\{\{|\}\}` matches
pub data Mark : Type 0 where
  interpolate_open interpolate_close : Mark

abbrev pub mark_at : List Char → Option Mark
mark_at (a ∷ b ∷ c ∷ s) =
    if code a == b'$' && (code b == b'{' && code c == b'{')
    then some interpolate_open
    else if code a == b'}' && code b == b'}'
    then some interpolate_close
    else none
mark_at (a ∷ b ∷ []) = if code a == b'}' && code b == b'}' then some interpolate_close else none
mark_at _ = none

-- one element of FindAllStringIndex: where the match starts and stops, and what it matched
pub record Match : Type 0 where
  pub start : ℕ
  pub stop : ℕ
  pub mark : Mark

abbrev pub mark_length : Mark → ℕ
mark_length interpolate_open = 3
mark_length interpolate_close = 2

-- The matches from the left, none overlapping the one before: `skip` characters are still part of it.
unfoldable pub find_all : ℕ → ℕ → List Char → List Match
find_all at skip [] = []
find_all at (suc skip) (c ∷ s) = find_all (suc at) skip s
find_all at zero (c ∷ s) = elim (mark_at (c ∷ s)) [
  | none ↦ find_all (suc at) zero s
  | some m ↦
      record { start = at; stop = at + mark_length m; mark = m }
      ∷ find_all (suc at) (mark_length m - 1) s
]

-- value[i:j]
abbrev pub slice : List Char → ℕ → ℕ → String
slice value i j = of_chars (take (j - i) (drop i value))

-- The variables of the loop of `interpolateString`.
pub record Scan : Type 0 where
  pub output : List Value
  pub depth : ℕ
  pub prev_idx : ℕ
  pub open_idx : ℕ
  pub sensitive : Bool
  pub sensitive_reasons : List String

abbrev pub initial : Scan
initial = record {
  output = [];
  depth = 0;
  prev_idx = 0;
  open_idx = 0;
  sensitive = false;
  sensitive_reasons = [];
}

module _ (codec : Codec) (obj : Object) (value : List Char) where
  -- add prefix to output, and move behind the match
  abbrev pub add_prefix : Match → Scan → Scan
  add_prefix m s = record s {
    output =
        if s.depth == 0
        then if s.prev_idx == m.start
          then s.output
          else s.output ++ string (slice value s.prev_idx m.start) ∷ []
        else s.output;
    prev_idx = m.stop;
  }

  abbrev pub add_evaluated : Evaluated → Scan → Scan
  add_evaluated e s = record s {
    output = s.output ++ e.value ∷ [];
    sensitive = if e.sensitive then true else s.sensitive;
    sensitive_reasons =
        if e.sensitive then s.sensitive_reasons ++ e.sensitive_reason ∷ [] else s.sensitive_reasons;
  }

  -- `${{`: depth += 1, and at depth 1 the expression starts here
  abbrev pub on_open : Match → Scan → Scan
  on_open m s = record s {
    depth = suc s.depth;
    open_idx = if s.depth == 0 then m.stop else s.open_idx;
  }

  -- `}}`, by the depth before it: depth -= 1
  pub on_close : ℕ → Match → Scan → Result Scan
  on_close zero m s = err (errorf "the %q has extra '}}'" (slice value s.open_idx m.start ∷ []))
  on_close (suc (suc depth)) m s = ok (record s { depth = suc depth })
  on_close (suc zero) m s = do
    inside ← evaluate codec obj (slice value s.open_idx m.start)
    ok (add_evaluated inside (record s { depth = 0 }))

  abbrev pub on_mark : Mark → Match → Scan → Result Scan
  on_mark interpolate_open m s = ok (on_open m s)
  on_mark interpolate_close m s = on_close s.depth m s

  unfoldable pub scan : List Match → Scan → Result Scan
  unfolding on_close
  scan [] s = ok s
  scan (m ∷ ms) s = do next ← on_mark m.mark m (add_prefix m s); scan ms next

-- the check that all is closed, and the suffix
unfoldable pub close_scan : List Char → Scan → Result Scan
close_scan value s =
    if ltb 0 s.depth
    then err (errorf "the %q is not closed: ${{ ... }}" (of_chars (drop s.open_idx value) ∷ []))
    else if s.prev_idx == length value
    then ok s
    else ok (record s { output = s.output ++ string (of_chars (drop s.prev_idx value)) ∷ [] })

-- concat all items
unfoldable pub concat : Codec → String → List Value → Result String
concat codec res [] = ok res
concat codec res (o ∷ os) = do text ← value_to_string codec o; concat codec (append res text) os

-- retain type if this is single item, otherwise convert to string
unfoldable pub join_output : Codec → List Value → Bool → List String → Result Evaluated
join_output codec (o ∷ []) sensitive reasons = ok (new_value o sensitive reasons)
join_output codec output sensitive reasons = do
  res ← concat codec "" output
  ok (new_string_value res sensitive reasons)

unfoldable pub interpolate_string : Codec → Object → String → Result Evaluated
interpolate_string codec obj text = do
  let value = chars text
  scanned ← scan codec obj value (find_all 0 0 value) initial
  closed ← close_scan value scanned
  join_output codec closed.output closed.sensitive closed.sensitive_reasons

-- ExpandString
unfoldable pub expand_string : Codec → Object → String → Result String
expand_string codec obj text = do
  res ← interpolate_string codec obj text
  value_to_string codec res.value

unfoldable mutual
  pub expand : Codec → Object → Value → Result Evaluated
  expand codec obj (string s) = interpolate_string codec obj s
  expand codec obj (struct fs) =
      expand_struct codec obj fs >>= λ res. ok (new_non_sensitive_value (struct res))
  expand codec obj (list vs) =
      expand_list codec obj vs >>= λ res. ok (new_non_sensitive_value (list res))
  expand codec obj v = ok (new_non_sensitive_value v)

  -- the loop of `expandStruct`
  pub expand_struct : Codec → Object → Fields → Result Fields
  expand_struct codec obj end = ok end
  expand_struct codec obj (field k v fs) = expand codec obj v >>= λ new.
      expand_struct codec obj fs >>= λ rest. ok (field k new.value rest)

  -- the loop of `expandList`
  pub expand_list : Codec → Object → Items → Result Items
  expand_list codec obj nil = ok nil
  expand_list codec obj (cons v vs) =
      expand codec obj v >>= λ new. expand_list codec obj vs >>= λ rest. ok (cons new.value rest)
