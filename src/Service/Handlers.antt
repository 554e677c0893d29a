-- ===== src/Service/Handlers.antt =====
-- pkg/api/service/service.go: the handlers Run, Close and Status. Jobs are shared by pointers, so they live
-- in a list: an address is a position, and a new job is put at the end.
use step_runner.Common.{
  if◌then◌else◌, ℕ, String, Option, none, some, List, [], ◌∷◌, ◌++◌, Map, length, get_elem?, set,
  str_eq, Error, errorf, Result, ok, err, ◌>>=◌, wrapping,
}
use step_runner.Environment.{add_lexical_scope}
use step_runner.Schema.Model.{Signature, Step}
use step_runner.Schema.Spec.{compile_spec}
use step_runner.Schema.Steps.{compile_definition}
use step_runner.Runner.Host.{M, try, give, lift, wrapped, Host}
use step_runner.Runner.Model.{
  SpecDef, Params, Parsed, new_inputs_with_default, step_defined_in_gitlab_job,
}
use step_runner.Runner.Context.{GlobalContext, StepsContext, new_steps_context}
use step_runner.Runner.Parser.{parse}
use step_runner.Runner.GlobalEnv.{global_environment}
use step_runner.Jobs.{Job, close}
use step_runner.Jobs.Opening.{Machine, OpenJob, open_job, remove_dir, StatusMessage, status_of}
use step_runner.Service.SyncMap.{SyncMap, new_map, put_entry, get, remove, collect}
use step_runner.Service.Variables.{Message, prepare}

-- the messages Job and RunRequest
pub record JobMessage : Type 0 where
  pub variables : List Message
  pub build_dir : String

pub record RunRequest : Type 0 where
  pub id : String
  pub work_dir : String
  pub env : Map String
  pub job : Option JobMessage
  pub steps : String

-- A job with what its goroutine runs.
pub record Task : Type 0 where
  pub opened : OpenJob
  pub context : StepsContext
  pub step : Parsed

-- StepRunnerService: the map of jobs, and the jobs that its pointers name
pub record Service : Type 0 where
  pub jobs : SyncMap ℕ
  pub tasks : List Task

abbrev pub new_service : Service
new_service = record { jobs = new_map; tasks = [] }

abbrev variables_of : Option JobMessage → Option (List Message)
variables_of none = none
variables_of (some j) = some j.variables

-- the directory of loadSteps
abbrev pub request_dir : RunRequest → String
request_dir r = elim r.job [
  | none ↦ r.work_dir
  | some j ↦ if str_eq j.build_dir "" then r.work_dir else j.build_dir
]

-- s.jobs.Put, with the task that is executed
unfoldable pub register : String → Task → Service → Service
register id task sv = record {
  jobs = put_entry id (length sv.tasks) sv.jobs;
  tasks = sv.tasks ++ task ∷ [];
}

module _ {W : Type 0} (host : Host W) (machine : Machine W)
    -- schema.ReadSteps: decode and validate a text
    (read_steps : String → Result (Option Signature × Step))
    -- the environment of the process that serves
    (env : ℕ) where
  unfoldable pub load_steps : RunRequest → Result SpecDef
  unfolding compile_spec compile_definition
  load_steps r = do
    (spec, decoded) ← wrapping "reading steps %q: %w" (r.steps ∷ []) (read_steps r.steps)
    proto_spec ← wrapping "compiling steps: %w" [] (compile_spec host.compiler spec)
    proto_def ← wrapping "compiling steps: %w" [] (compile_definition host.compiler decoded)
    ok (record { spec = proto_spec; definition = proto_def; dir = request_dir r })

  -- runner.GlobalEnvironment
  unfoldable pub make_global_env : Map String → M W (Result ℕ)
  unfolding global_environment
  make_global_env job_vars s = elim (global_environment env job_vars s.heap) [
    | none ↦ none
    | some (r, h) ↦ some (r, record s { heap = h })
  ]

  -- env.AddLexicalScope(request.Env)
  unfoldable pub add_request_env : ℕ → Map String → M W (Result ℕ)
  unfolding add_lexical_scope
  add_request_env e vars s =
      let (scope, h) = add_lexical_scope e vars s.heap in give scope (record s { heap = h })

  -- Run between jobs.New and the map of jobs
  unfoldable pub prepare_task : RunRequest → SpecDef → OpenJob → M W (Result Task)
  unfolding prepare make_global_env add_request_env parse new_inputs_with_default new_steps_context
  prepare_task r sd opened =
      try
        (wrapped "preparing environment: %w" []
          (prepare machine.write_file (variables_of r.job) opened.tmp_dir))
        λ job_vars.
          try (wrapped "initializing global environment: %w" [] (make_global_env job_vars)) λ e.
            try (add_request_env e r.env) λ scope.
              let params : Params = record { inputs = []; env = [] } in
              let global : GlobalContext = record {
                work_dir = opened.work_dir;
                job = job_vars;
                env = scope;
              } in
              try
                (lift (
                  wrapping "failed to start step runner service: %w" []
                    (parse sd params step_defined_in_gitlab_job)))
                λ step.
                  try
                    (new_steps_context host global sd.dir
                      (new_inputs_with_default params sd.spec.inputs) scope)
                    λ context. give (record { opened = opened; context = context; step = step })

  -- the deferred call: on an error the job is closed, which removes its temporary directory
  unfoldable pub closing_on_error : OpenJob → M W (Result Task) → M W (Result Task)
  closing_on_error opened m s = elim (m s) [
    | none ↦ none
    | some (ok task, s') ↦ some (ok task, s')
    | some (err e, s') ↦ elim (remove_dir machine opened.tmp_dir s') [
      | none ↦ none
      | some (u, s'') ↦ some (err e, s'')
    ]
  ]

  unfoldable pub run_new : Service → RunRequest → M W (Result Service)
  unfolding load_steps open_job prepare_task closing_on_error register
  run_new sv r = try (lift (wrapping "loading step: %w" [] (load_steps r))) λ sd.
      try (wrapped "initializing request: %w" [] (open_job machine r.id sd.dir)) λ opened.
        try (closing_on_error opened (prepare_task r sd opened))
          λ task. give (register r.id task sv)

  -- Run
  unfoldable pub run_request : Service → RunRequest → M W (Result Service)
  unfolding run_new
  run_request sv r = elim (get r.id sv.jobs) [ some a ↦ give sv | none ↦ run_new sv r ]

abbrev pub on_job : (Job → Job) → Task → Task
on_job f t = record t { opened = record t.opened { job = f t.opened.job } }

-- A change of the job at an address.
unfoldable pub update_job : (Job → Job) → ℕ → Service → Service
update_job f a sv = elim (get_elem? sv.tasks a) [
  | none ↦ sv
  | some t ↦ record sv { tasks = set sv.tasks a (on_job f t) }
]

-- Close up to the wait for the job, and behind it
unfoldable pub begin_close : String → Service → Service
unfolding update_job close
begin_close id sv = elim (get id sv.jobs) [ none ↦ sv | some a ↦ update_job close a sv ]

unfoldable pub end_close : String → Service → Service
end_close id sv = record sv { jobs = remove id sv.jobs }

module _ (text : Error → String) where
  -- the status of the job at an address; a pointer in the map is never nil
  unfoldable pub status_at : Service → ℕ → Option StatusMessage
  unfolding status_of
  status_at sv a = elim (get_elem? sv.tasks a) [
    | none ↦ none
    | some t ↦ some (status_of text t.opened.job)
  ]

  -- Status
  unfoldable pub status : Service → String → Result (List (Option StatusMessage))
  unfolding status_at
  status sv id =
      if str_eq id ""
      then ok (collect (λ key a. status_at sv a) sv.jobs)
      else elim (get id sv.jobs) [
        | none ↦ err (errorf "no job with id %q" (id ∷ []))
        | some a ↦ ok (status_at sv a ∷ [])
      ]
