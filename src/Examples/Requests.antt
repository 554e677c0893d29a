-- ===== src/Examples/Requests.antt =====
-- Requests to the service: the theorems at concrete inputs.
use step_runner.Common.{
  ◌==◌, if◌then◌else◌, ℕ, String, ◌≡◌, refl, Bool, true, false, Option, none, some, List, [], ◌∷◌,
  ◌++◌, ◌⊎◌, Map, lookup, put, lookup-put, arith, Error, Result, ok, err, str_eq,
}
use step_runner.Runner.Host.{State}
use step_runner.Schema.Model.{Signature, Step, step, no_run, StepFields}
use step_runner.Jobs.Opening.{Machine}
use step_runner.Service.Variables.{Message, prepare, WriteFile}
use step_runner.Service.Files.{FileSystem, IsHeld, prepare-IsHeld}
use step_runner.Service.Handlers.{RunRequest, Service, new_service, run_request, status}
use step_runner.Service.Reachable.{Serves, serving, ran, IsServing}
use step_runner.Service.Invariant.{Serves-IsServing}
use step_runner.Service.Answers.{IsAnswered, run_request-IsAnswered}
use step_runner.Examples.Data.{value_of_some, value_of_ok, quiet_host, one_env}
use step_runner.Examples.StepFiles.{empty_step}

abbrev write_text : WriteFile (Map String)
write_text path content w = (ok tt, put path content w)

lookup-write_text :
    (p q content : String) (w w' : Map String)
    → write_text p content w ≡ (ok tt, w')
    → lookup q w' ≡ (if str_eq p q then some content else lookup q w)
lookup-write_text p q content w w' h = let e = lookup-put p q content w in ground (arith, e)

-- Files as a map from paths to contents.
abbrev files : FileSystem (Map String)
files = record {
  write_file = write_text;
  read_file = lookup;
  read_file-write_file = lookup-write_text;
}

abbrev secret : Message
secret = record { key = "KEY"; value = "s3cret"; file = true; masked = true }

abbrev name : Message
name = record { key = "NAME"; value = "Ada"; file = false; masked = false }

abbrev no_files : State (Map String)
no_files = record { heap = []; world = [] }

abbrev one_file : State (Map String)
one_file = record { heap = []; world = ("/tmp/job/KEY", "s3cret") ∷ [] }

abbrev job_env : Map String
job_env = ("KEY", "/tmp/job/KEY") ∷ ("NAME", "Ada") ∷ []

preparing :
    prepare write_text (some (secret ∷ name ∷ [])) "/tmp/job" no_files ≡ some (ok job_env, one_file)
unfolding prepare put
preparing = refl

prepare-IsHeld_example : IsHeld files secret job_env one_file.world
prepare-IsHeld_example =
    prepare-IsHeld files [] (name ∷ []) secret "/tmp/job" job_env no_files one_file refl preparing

-- A machine on which every call succeeds.
abbrev pub machine : Machine (Unit {0})
machine = record {
  getwd = λ w. ok "/";
  mkdir_all = λ path w. (ok tt, w);
  temp_dir = "/tmp";
  create_log = λ path w. (ok tt, w);
  remove_all = λ path w. w;
  write_file = λ path content w. (ok tt, w);
}

-- Every text is read as one step that runs a command.
abbrev pub read_steps : String → Result (Option Signature × Step)
read_steps text = ok (
  none,
  step (record empty_step { exec = some (record { command = "true" ∷ []; work_dir = none }) })
      no_run,
)

abbrev request : RunRequest
request = record { id = "7"; work_dir = "/work"; env = []; job = none; steps = "exec" }

abbrev served : Result Service × State (Unit {0})
served =
    value_of_some (ok new_service, one_env)
      (run_request quiet_host machine read_steps 0 new_service request one_env)

abbrev pub running : Service
running = value_of_ok new_service served.0

serving_request :
    run_request quiet_host machine read_steps 0 new_service request one_env
    ≡ some (ok running, served.1)
unfolding run_request lookup step_runner.Schema.Spec.compile_inputs
    step_runner.Schema.Steps.verify_one_type_provided step_runner.Runner.GlobalEnv.log_level
    step_runner.Common.to_lower step_runner.Common.trim_space step_runner.Environment.value_of
    step_runner.Environment.values step_runner.Environment.values_in
    step_runner.Environment.values_of step_runner.Environment.parent_values
    step_runner.Environment.mutation_values step_runner.Runner.GlobalEnv.accept_level
    step_runner.Common.copy put step_runner.Runner.GlobalEnv.with_level step_runner.Common.join_path
    step_runner.Environment.add_lexical_scope step_runner.Environment.new_environment
    step_runner.Jobs.Opening.open_job step_runner.Jobs.Opening.open_logs
    step_runner.Jobs.Opening.work_dir_or_current step_runner.Runner.Context.new_steps_context
    step_runner.Runner.GlobalEnv.global_environment step_runner.Runner.Model.new_inputs_with_default
    step_runner.Runner.Parser.parse step_runner.Runner.Parser.parse_step_type
    step_runner.Runner.Parser.parse_steps step_runner.Runner.Parser.validate_inputs
    step_runner.Schema.Spec.compile_spec step_runner.Schema.Model.compile_values
    step_runner.Schema.Steps.compile_definition step_runner.Schema.Steps.compile_run
    step_runner.Service.Handlers.add_request_env step_runner.Service.Handlers.closing_on_error
    step_runner.Service.Handlers.load_steps step_runner.Service.Handlers.make_global_env
    step_runner.Service.Handlers.prepare_task step_runner.Service.Handlers.register
    step_runner.Service.Handlers.run_new prepare
serving_request = refl

abbrev pub no_text : Error → String
no_text e = ""

pub running-Serves : Serves no_text quiet_host machine read_steps 0 running
running-Serves = ran request one_env served.1 serving serving_request

Serves-IsServing_example : IsServing no_text running
Serves-IsServing_example = Serves-IsServing no_text quiet_host machine read_steps 0 running-Serves

run_request-IsAnswered_example :
    IsAnswered no_text quiet_host machine read_steps 0 running "7"
    × (status no_text running "8" ≡ status no_text new_service "8")
run_request-IsAnswered_example =
    run_request-IsAnswered no_text quiet_host machine read_steps 0 new_service running request
      one_env served.1 "8" serving serving_request refl refl refl
