-- ===== src/Examples/Expressions.antt =====
-- Examples of expressions and of the values that they expand to.
use step_runner.Common.{◌≡◌, refl, false, chars, of_chars, [], ◌∷◌, ok, ◌>>=◌}
use step_runner.Value.{
  Value, string, struct, bool, end, field, new_non_sensitive_value, Variable, assign,
}
use step_runner.Expression.Interpolate.{interpolate_string, join_output, expand}
use step_runner.Expression.Interpolate.Marks.{Parts, render}
use step_runner.Expression.Interpolate.Templates.{outputs, interpolate_string-render}
use step_runner.Expression.Interpolate.Expansion.{assign-expand}
use step_runner.Examples.Data.{plain_codec, seen}

abbrev parts : Parts
parts = (chars "env.NAME", chars "!") ∷ []

interpolate_string-render_example :
    interpolate_string plain_codec seen (of_chars (render (chars "Hi ") parts))
    ≡ (outputs plain_codec seen (chars "Hi ") parts >>= λ out. join_output plain_codec out false [])
interpolate_string-render_example = interpolate_string-render plain_codec seen (chars "Hi ") parts (
  (refl, (refl, (refl, tt))),
  (refl, (refl, (refl, (refl, (refl, (refl, (refl, (refl, tt)))))))),
  (refl, tt),
)

abbrev nested : Value
nested = struct (field "who" (string "Ada") (field "on" (bool false) end))

abbrev secret : Variable
secret = record { value = string ""; sensitive = false }

assign-expand_example :
    (false ≡ false)
    × (assign secret (new_non_sensitive_value nested)
        ≡ ok (record { value = nested; sensitive = false }))
unfolding expand interpolate_string step_runner.Expression.Interpolate.scan
    step_runner.Expression.Interpolate.find_all step_runner.Expression.Interpolate.close_scan
    join_output
assign-expand_example =
    assign-expand plain_codec seen nested (new_non_sensitive_value nested) secret refl
