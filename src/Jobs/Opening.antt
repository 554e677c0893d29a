-- ===== src/Jobs/Opening.antt =====
-- jobs.New with its directories and its log file, what Close removes of them, and Job.Status.
use step_runner.Common.{
  ℕ, String, true, false, Option, none, some, [], ◌∷◌, append, join_path, str_eq, Error, Result,
  err, wrapping,
}
use step_runner.Proto.{Status}
use step_runner.Runner.Host.{M, try, attempt, give, in_world, wrapped}
use step_runner.Jobs.{Job, new_job}

-- The calls of package os and of the log file.
pub record Machine (W : Type 0) : Type 0 where
  pub getwd : W → Result String
  pub mkdir_all : String → W → Result (Unit {0}) × W
  pub temp_dir : String
  pub create_log : String → W → Result (Unit {0}) × W
  pub remove_all : String → W → W
  pub write_file : String → String → W → Result (Unit {0}) × W

-- A job with its directories.
pub record OpenJob : Type 0 where
  pub job : Job
  pub tmp_dir : String
  pub work_dir : String

module _ {W : Type 0} (machine : Machine W) where
  -- os.Getwd
  abbrev pub current_dir : M W (Result String)
  current_dir s = some (machine.getwd s.world, s)

  unfoldable pub work_dir_or_current : String → M W (Result String)
  work_dir_or_current work_dir s = elim (str_eq work_dir "") [
    | true ↦ wrapped "could not determine working directory: %w" [] current_dir s
    | false ↦ give work_dir s
  ]

  -- RemoveAll
  abbrev pub remove_dir : String → M W (Unit {0})
  remove_dir dir = in_world λ w. (tt, machine.remove_all dir w)

  -- the log file; without it the temporary directory is removed
  unfoldable pub open_logs : String → M W (Result (Unit {0}))
  unfolding join_path
  open_logs tmp_dir =
      attempt (in_world (machine.create_log (join_path (tmp_dir ∷ "logs" ∷ []))))
        (λ e s. elim (remove_dir tmp_dir s) [
          | none ↦ none
          | some (u, s') ↦ some (wrapping "creating log file: %w" [] (err e), s')
        ])
        give

  -- New
  unfoldable pub open_job : String → String → M W (Result OpenJob)
  unfolding work_dir_or_current open_logs join_path
  open_job id work_dir = try (work_dir_or_current work_dir) λ dir.
      try (wrapped "creating workdir %q: %w" (dir ∷ []) (in_world (machine.mkdir_all dir))) λ u.
        let tmp_dir = join_path (machine.temp_dir ∷ append "step-runner-output-" id ∷ []) in
        try (wrapped "creating tmpdir %q: %w" (tmp_dir ∷ []) (in_world (machine.mkdir_all tmp_dir)))
          λ v.
            try (open_logs tmp_dir)
              λ x. give (record { job = new_job id; tmp_dir = tmp_dir; work_dir = dir })

-- the message Status
pub record StatusMessage : Type 0 where
  pub id : String
  pub message : String
  pub status : Status
  pub start_time : Option ℕ
  pub end_time : Option ℕ

-- Job.Status, with the method Error of an error
abbrev error_text : (Error → String) → Option Error → String
error_text text none = ""
error_text text (some e) = text e

unfoldable pub status_of : (Error → String) → Job → StatusMessage
status_of text j = record {
  id = j.id;
  message = error_text text j.error;
  status = j.status;
  start_time = j.start_time;
  end_time = j.finish_time;
}
