-- ===== src/Examples/Data.antt =====
-- The data of the examples: a codec, a compiler and a host as concrete functions.
use step_runner.Common.{false, Option, none, some, [], ◌∷◌, errorf, Result, ok, err}
use step_runner.Value.{Value, string, unset}
use step_runner.Proto
use step_runner.Proto.{Spec, InputSpec, Definition, definition, no_steps}
use step_runner.Expression.Dig.{Codec, Object, context}
use step_runner.Schema.Model.{Any, plain, text_ptr, Compiler}
use step_runner.Environment.{Env}
use step_runner.Runner.Host.{State, Host}
use step_runner.Runner.Model.{SpecDef, Params, Loaded, NamedReference}
use step_runner.Runner.Context.{StepsContext}

-- What a test returns in the first place, when it returns.
abbrev pub value_of_ok {ℓ} : {A : Type ℓ} → A → Result A → A
value_of_ok d (ok a) = a
value_of_ok d (err e) = d

abbrev pub value_of_some {ℓ} : {A : Type ℓ} → A → Option A → A
value_of_some d (some a) = a
value_of_some d none = d

abbrev pub plain_codec : Codec
plain_codec = record { new_value = λ o. ok unset; marshal = λ v. ok "{}" }

abbrev pub seen : Object
seen = context (record {
  env = ("NAME", "Ada") ∷ [];
  export_file = "/tmp/export";
  inputs = [];
  job = [];
  output_file = "/tmp/output";
  step_dir = "/steps";
  step_results = [];
  work_dir = "/work";
})

abbrev new_value : Any → Result Value
new_value (plain v) = ok v
new_value (text_ptr s) = ok (string s)
new_value _ = err (errorf "proto: invalid type: %T" [])

abbrev pub compiler : Compiler
compiler = record { new_value = new_value }

abbrev pub global_env : Env
global_env = record { vars = ("LEVEL", "info") ∷ []; parent = none; mutations = [] }

-- A host on which every command succeeds and every file is empty.
abbrev pub quiet_host : Host (Unit {0})
quiet_host = record {
  codec = plain_codec;
  compiler = compiler;
  load_steps = λ path w. (err (errorf "open: no such file" []), w);
  git_get = λ url version w. (ok "/git", w);
  dist_fetch = λ dir w. (ok "/dist", w);
  write_log = λ format args w. (ok tt, w);
  new_step_file = λ w. (ok "/tmp/file", w);
  remove_file = λ path w. w;
  read_lines = λ path w. ok [];
  decode_line = λ line. err (errorf "unexpected end of JSON input" []);
  read_step_result = λ path w. err (errorf "unexpected end of JSON input" []);
  format_float = λ bits. "0";
  run_command = λ dir args env w. (record { error = none; exit_code = 0 }, w);
}

abbrev pub one_env : State (Unit {0})
one_env = record { heap = global_env ∷ []; world = tt }

abbrev pub exec_definition : Definition
exec_definition =
    definition
      (record {
        type = Proto.DefinitionType.exec;
        exec = some (record { command = "echo" ∷ "${{env.LEVEL}}" ∷ []; work_dir = "" });
        outputs = [];
        env = [];
        delegate = "";
      })
      no_steps

abbrev pub greeting : InputSpec
greeting = record {
  type = Proto.ValueType.string;
  default = some (string "hello");
  sensitive = false;
}

abbrev pub answer : InputSpec
answer = record { type = Proto.ValueType.string; default = none; sensitive = false }

abbrev pub exec_step : SpecDef
exec_step = record {
  spec = record {
    inputs = ("greeting", greeting) ∷ [];
    outputs = [];
    output_method = Proto.OutputMethod.outputs;
  };
  definition = exec_definition;
  dir = "/steps";
}

abbrev pub no_params : Params
no_params = record { inputs = []; env = [] }

abbrev pub unnamed : NamedReference
unnamed = record { name = ""; ref = none }

abbrev pub loaded : Loaded
loaded = record { loaded_from = unnamed; params = no_params; spec_def = exec_step }

abbrev pub steps_context : StepsContext
steps_context = record {
  global_ctx = record { work_dir = "/work"; job = []; env = 0 };
  step_dir = "/steps";
  output_file = "/tmp/output";
  export_file = "/tmp/export";
  env = 0;
  inputs = [];
  steps = [];
}
