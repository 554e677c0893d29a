-- ===== src/Examples/Clients.antt =====
-- Clients of the service: the theorems at concrete inputs.
use Prim.Native.Char.{Char}
use step_runner.Common.{
  ℕ, String, ◌≡◌, ◌⊎◌, ◌+◌, ◌*◌, ◌%◌, ◌^◌, ◌++◌, refl, Bool, true, Option, none, some, is_some,
  is_ok, List, [], ◌∷◌, map, chars, length, drop, Error, errorf, wrap, wrap_error, Result, ok, err,
  if◌then◌else◌, arith,
}
use step_runner.Jobs.{Job}
use step_runner.Jobs.States.{Reaches}
use step_runner.Jobs.Opening.{status_of}
use step_runner.Logs.Lines.{lines_of}
use step_runner.Service.SyncMap.{get, put_entry, new_map}
use step_runner.Service.Handlers.{Service, status}
use step_runner.Service.Following.{service_follow_logs}
use step_runner.Service.Answers.{unknown}
use step_runner.Clients.Basic.{
  ClientRequest, empty_status, Server, message, stream_end, receive, status_of_job, from_status,
  to_proto,
}
use step_runner.Clients.Extended.{Following, Followed, follow_job, run_and_follow}
use step_runner.Clients.Followed.{Sends, TakesAll, text_of, flat, service_follow_logs-receive}
use step_runner.Clients.Calls.{
  Call, run_call, Answers, recorder, job_calls, follow_job-read_logs, run_and_follow-calls,
}
use step_runner.Clients.Served.{sent_back, status_of_job-IsAnswered}
use step_runner.Examples.Data.{value_of_some, quiet_host}
use step_runner.Examples.Requests.{machine, read_steps, no_text, running, running-Serves}
use step_runner.Examples.Following.{empty_log, closed_log, two_reads, followed, closed_log-short}

abbrev sends : Sends (List (List Char))
sends = record {
  stream = record { ctx_err = λ w. none; send = λ p w. (ok tt, w ++ p ∷ []) };
  sent = λ w. w;
  never_done = λ w. refl;
  send_fine = λ p w. refl;
  sent-send = λ p w. refl;
}

abbrev takes_all : TakesAll (List Char)
takes_all = record {
  sink = record { ctx_err = λ w. none; write_to = λ p w. ((length p, none), w ++ p) };
  content = λ w. w;
  never_done = λ w. refl;
  takes = λ p w. refl;
  content-write_to = λ p w. refl;
}

-- A service with one name.
abbrev one_name : Service
one_name = record { jobs = put_entry "7" 0 new_map; tasks = running.tasks }

service_follow_logs-receive_example :
    (v' : List (List Char)) × (w' : List Char) × (service_follow_logs one_name "7" sends.stream
        (λ a. two_reads)
        []
      ≡ some (ok tt, v'))
    × (receive takes_all.sink 0 (map message v' ++ stream_end ∷ []) []
        ≡ some (((0 + length (text_of (lines_of (drop 0 closed_log.content)))) % 2 ^ 64, none), w'))
    × (w' ≡ [] ++ text_of (lines_of (drop 0 closed_log.content)))
unfolding step_runner.Common.lookup step_runner.Common.put
service_follow_logs-receive_example =
    service_follow_logs-receive sends takes_all one_name "7" 0 (λ a. empty_log) closed_log 0
      (λ a. two_reads) [] [] refl followed refl (omega arith) (omega arith) closed_log-short refl

-- A service that runs a job, has two messages of its log, and knows no status.
abbrev two_messages : List (List Char)
two_messages = chars "one\n" ∷ chars "two\n" ∷ []

abbrev answers : Answers
answers = record {
  run = λ r calls. ok tt;
  close = λ id calls. ok tt;
  status = λ id calls. err (errorf "unavailable" []);
  follow_logs = λ id offset calls. ok (map message two_messages ++ stream_end ∷ []);
}

abbrev read_before : Following (List Call) (List Char)
read_before = record { server = []; sink = chars "old\n"; read_logs = 4 }

follow_job-read_logs_example :
    (r : Followed (List Call) (List Char)) × (follow_job
        (recorder answers)
        (some takes_all.sink)
        "7"
        read_before
      ≡ some r)
    × (r.1.sink ≡ chars "old\n" ++ flat two_messages)
    × (r.1.read_logs ≡ (2 * 4 + length (flat two_messages)) % 2 ^ 64)
follow_job-read_logs_example =
    follow_job-read_logs (recorder answers) takes_all "7" read_before _ two_messages (omega arith)
      refl

abbrev client_request : ClientRequest
client_request = record {
  id = "7";
  work_dir = "/work";
  env = [];
  steps = "exec";
  variables = [];
  build_dir = "";
}

abbrev ran_job : Followed (List Call) (List Char)
ran_job =
    value_of_some ((empty_status, none), read_before)
      (run_and_follow (recorder answers) (some takes_all.sink) client_request read_before)

run_and_follow-calls_example :
    ran_job.1.server
    ≡ []
      ++ run_call (to_proto client_request)
        ∷ (if is_ok (answers.run (to_proto client_request) [])
            then job_calls (is_some (some takes_all.sink)) "7" 4
            else [])
unfolding run_and_follow
run_and_follow-calls_example =
    run_and_follow-calls answers (some takes_all.sink) client_request read_before ran_job refl

-- A client of the service of the other examples, whose errors are sent as unknown ones.
abbrev rpc_error : Error → Error
rpc_error e = wrap "rpc error: code = Unknown desc = %w" [] e

abbrev client_server : Server Service
client_server = record {
  run = λ r sv. (ok tt, sv);
  close = λ id sv. (ok tt, sv);
  status = λ id sv. (sent_back rpc_error (status no_text sv id), sv);
  follow_logs = λ id offset sv. (ok [], sv);
}

status_of_job-IsAnswered_example :
    ((get "7" running.jobs ≡ none)
      × (status_of_job client_server "7" running ≡ (
        err (wrap_error "getting status for job %q: %w" ("7" ∷ []) (rpc_error (unknown "7"))),
        running,
      )))
    ⊎ ((j : Job) × Reaches no_text "7" j
        × (status_of_job client_server "7" running
            ≡ (ok (from_status (status_of no_text j)), running)))
status_of_job-IsAnswered_example =
    status_of_job-IsAnswered no_text quiet_host machine read_steps 0 client_server rpc_error running
      "7" running running running-Serves refl refl
