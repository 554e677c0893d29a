-- ===== src/Commands/Container.antt =====
-- pkg/di/container.go: the parser of steps and the service are made with a directory for the caches.
use step_runner.Common.{ℕ, String, List, [], ◌∷◌, join_path, Result, ok, err, some}
use step_runner.Environment.FromOs.{new_environment_from_os}
use step_runner.Runner.Host.{M, try, give, in_world, wrapped}
use step_runner.Jobs.Opening.{Machine}

-- What runs a step: the fetcher of git steps is made with a directory, the other one with none.
pub record StepParser : Type 0 where
  pub cache_dir : String

-- StepRunnerService: its parser and the environment of the process
pub record Serving : Type 0 where
  pub parser : StepParser
  pub env : ℕ

module _ {W : Type 0} (machine : Machine W) where
  -- CacheDir
  unfoldable pub cache_dir : M W (Result String)
  unfolding join_path
  cache_dir =
      let dir = join_path (machine.temp_dir ∷ "step-runner-cache" ∷ []) in
      try (wrapped "creating cache dir %q: %w" (dir ∷ []) (in_world (machine.mkdir_all dir)))
        λ u. give dir

  -- GitFetcher and StepResourceParser
  unfoldable pub git_fetcher : M W (Result String)
  git_fetcher = wrapped "creating git fetcher: %w" [] cache_dir

  unfoldable pub step_resource_parser : M W (Result String)
  step_resource_parser = wrapped "creating step resource parser: %w" [] git_fetcher

  -- StepParser
  unfoldable pub step_parser : M W (Result StepParser)
  unfolding step_resource_parser git_fetcher cache_dir
  step_parser =
      try (wrapped "creating step parser: %w" [] step_resource_parser)
        λ dir. give (record { cache_dir = dir })

  -- StepRunnerService, over os.Environ()
  unfoldable pub step_runner_service : List String → M W (Result Serving)
  unfolding new_environment_from_os step_parser
  step_runner_service environ s = elim (new_environment_from_os [] environ s.heap) [
    | err e ↦ wrapped "creating step runner service: %w" [] (λ t. some (err e, t)) s
    | ok (env, h) ↦
        try (wrapped "creating step runner service: %w" [] step_parser)
          (λ parser. give (record { parser = parser; env = env })) (record s { heap = h })
  ]
