-- ===== src/Schema/Steps/Forms.antt =====
-- Which forms of a step compile, and to what.
use native.Mathlib.Omega.{arith}
use step_runner.Common.{
  String, ◌≡◌, refl, Bool, Bool-cases, true, false, not, ◌||◌, str_eq, is_ok, is_ok-bind, inl, inr,
  Option, none, some, [], ◌∷◌, Result, Result-cases, ok, err, ◌>>=◌, >>=-eq-ok, length, ◌==◌,
  if◌then◌else◌,
}
use step_runner.Proto
use step_runner.Schema.Model.{
  StepFields, compiled, text_ptr, step, Run, no_run, run, Steps, done, more, steps_of, Exec,
  Compiler, compile_values,
}
use step_runner.Schema.Steps.{
  script_reference, is_given, is_set, compile_script_keyword_to_step,
  compile_action_keyword_to_step, compile_to_step_proto, compile_step, compile_run,
  compile_definition, verify_one_type_provided, compile_to_definition_proto,
}

-- What a definition that compiles was, and became.
pub data HasForm (s : StepFields) : Run → Proto.Definition → Type 0 where
  of_exec :
      {d : Proto.Definition} (e : Exec)
      → s.exec ≡ some e
      → (Proto.definition_fields d).type ≡ Proto.DefinitionType.exec
      → Proto.definition_steps d ≡ []
      → HasForm s no_run d
  of_run :
      {d : Proto.Definition} (ss : Steps)
      → s.exec ≡ none
      → (Proto.definition_fields d).type ≡ Proto.DefinitionType.steps
      → length (Proto.definition_steps d) ≡ length (steps_of ss)
      → HasForm s (run ss) d

compile_run-length :
    (c : Compiler) (name : Option String) (ss : Steps) (r : Proto.Steps)
    → compile_run c name ss ≡ ok r
    → length (Proto.steps_of r) ≡ length (steps_of ss)
unfolding compile_run
compile_run-length c name done r h = ground arith
compile_run-length c name (more (step s q) ss) r h = elim (Result-cases (compile_step c s)) [
  | inl (new, e) ↦
      let (rest, q', same) =
        >>=-eq-ok (compile_run c name ss) (λ rest. ok (Proto.more new rest))
          (rw (e, compile_run) at h) in
      ground (arith, compile_run-length c name ss rest q')
  | inr (e, failed) ↦ ground arith
]

-- A definition compiles only if exactly one of `exec` and `run` is given. It is then of that type: with
-- no steps for `exec`, and with as many steps as `run` lists.
pub compile_definition-HasForm :
    (c : Compiler) (s : StepFields) (r : Run) (d : Proto.Definition)
    → compile_definition c (step s r) ≡ ok d
    → HasForm s r d
unfolding compile_definition verify_one_type_provided
compile_definition-HasForm c s r d h = go s.exec refl r h
  where
    go :
        (x : Option Exec)
        → s.exec ≡ x
        → (q : Run)
        → ((verify_one_type_provided x q) >>= λ _. compile_to_definition_proto c s x q) ≡ ok d
        → HasForm s q d
    go none e no_run h' = cc
    go (some x) e (run ss) h' = cc
    go (some x) e no_run h' = of_exec x e (ground arith) (ground arith)
    go none e (run ss) h' =
        let (steps, e₁, h₁) = >>=-eq-ok (compile_run c s.name ss) _ h' in
        let (outputs, e₂, h₂) = >>=-eq-ok (compile_values c _ s.outputs) _ h₁ in
        of_run ss e (ground arith) (ground (arith, compile_run-length c s.name ss steps e₁))

-- What the keyword `script` cannot stand with.
abbrev pub clashes_with_script : StepFields → Bool
clashes_with_script s = is_set s.step || is_given s.action || not (length s.inputs == 0)

abbrev pub scripted : StepFields → String → StepFields
scripted s text = record s {
  step = some (compiled script_reference);
  inputs = ("script", text_ptr text) ∷ [];
  script = none;
}

module _ (s : StepFields) (text : String) (given : s.script ≡ some text)
    (full : str_eq text "" ≡ false) where
  keyword_clash : clashes_with_script s ≡ true → is_ok (compile_script_keyword_to_step s) ≡ false
  unfolding compile_script_keyword_to_step
  keyword_clash clash = ground arith

  keyword_alone :
      clashes_with_script s ≡ false → compile_script_keyword_to_step s ≡ ok (scripted s text)
  unfolding compile_script_keyword_to_step
  keyword_alone alone = ground arith

  no_action :
      clashes_with_script s ≡ false
      → compile_action_keyword_to_step (scripted s text) ≡ ok (scripted s text)
  unfolding compile_action_keyword_to_step
  no_action alone = ground arith

-- The result without the text of its error.
abbrev pub without_error : {A : Type 0} → Result A → Option A
without_error (ok a) = some a
without_error (err e) = none

without_error-failed : {A : Type 0} (r : Result A) → is_ok r ≡ false → without_error r ≡ none
without_error-failed (ok a) h = cc
without_error-failed (err e) h = refl

-- The keyword `script` with a text makes a step of the distributed step `script`, with the text as its
-- only input. Beside `step`, `action` or `inputs` it makes none.
pub compile_step-script :
    (c : Compiler) (s : StepFields) (text : String)
    → s.script ≡ some text
    → str_eq text "" ≡ false
    → without_error (compile_step c s) ≡ (
        if clashes_with_script s
        then none
        else without_error (compile_to_step_proto c (scripted s text)))
unfolding compile_step
compile_step-script c s text given full = elim (Bool-cases (clashes_with_script s)) [
  | inl clash ↦ rw clash (
      without_error-failed (compile_step c s)
        (is_ok-bind (compile_script_keyword_to_step s) _ (keyword_clash s text given full clash)))
  | inr alone ↦
      rw (alone, keyword_alone s text given full alone, no_action s text given full alone) refl
]
