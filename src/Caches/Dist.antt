-- ===== src/Caches/Dist.antt =====
-- pkg/cache/dist/fetcher.go and dist/step_finder.go: distributed steps, which are copied to a directory
-- that the fetcher makes once.
use step_runner.Common.{
  if◌then◌else◌, ℕ, String, Bool, true, false, ◌||◌, List, [], ◌∷◌, clean, join_path, str_eq,
  has_suffix, Error, errorf, Result, ok, err, wrapping,
}

-- The embedded files, and package os. `FS` is a file system, `stat` what fs.Stat says of a path in it:
-- an error, or that it does not exist, or that it does.
pub data Stat : Type 0 where
  exists not_exist : Stat
  stat_error : Error → Stat

pub record DistHost (W : Type 0) : Type 1 where
  pub FS : Type 0
  pub stat : FS → String → Stat
  pub sub : FS → String → Result FS
  pub make_temp_dir : W → Result String × W
  pub path_exists : String → W → Bool
  pub copy_fs : String → FS → W → Result (Unit {0}) × W
  -- filepath.WalkDir over a directory: each path, its name, and whether it is a directory
  pub walk : String → W → Result (List (String × String × Bool))
  pub chmod : String → ℕ → W → Result (Unit {0}) × W
  pub remove_all : String → W → W

abbrev pub not_found : String → Error
not_found step = errorf "distributed step %q not found" (step ∷ [])

-- Fetcher: its working directory, "" before it is made
pub record Fetcher : Type 0 where
  pub work_dir : String

-- NewFetcher
abbrev pub new_fetcher : Fetcher
new_fetcher = record { work_dir = "" }

module _ {W : Type 0} (host : DistHost W) where
  -- FindDistributedStep, in the files given
  unfoldable pub find_distributed_step : host.FS → String → Result host.FS
  unfolding join_path clean
  find_distributed_step find_in step =
      let step_sub_dir = join_path ("bin" ∷ clean step ∷ []) in
      if str_eq step_sub_dir "bin" || str_eq step_sub_dir "."
      then err (not_found step)
      else elim (host.stat find_in step_sub_dir) [
        | not_exist ↦ err (not_found step)
        | stat_error e ↦ wrapping "loading distributed step %q: %w" (step ∷ []) (err e)
        | exists ↦
            wrapping "loading distributed step %q: %w" (step ∷ []) (host.sub find_in step_sub_dir)
      ]

  -- the permissions that chmodFiles gives
  unfoldable pub permission_of : String × String × Bool → ℕ
  permission_of (path, name, true) = 493
  permission_of (path, name, false) =
      if str_eq name "run" || has_suffix path ".exe" || has_suffix path ".sh" then 365 else 292

  -- a call on the world, with what comes behind it unless it fails
  abbrev pub and_then : {A : Type 0} → Result (Unit {0}) × W → (W → Result A × W) → Result A × W
  and_then (err e, w) next = (err e, w)
  and_then (ok u, w) next = next w

  abbrev wrapped : {A : Type 0} → String → List String → Result A × W → Result A × W
  wrapped format args (r, w) = (wrapping format args r, w)

  unfoldable pub chmod_all : List (String × String × Bool) → W → Result (Unit {0}) × W
  unfolding permission_of
  chmod_all [] w = (ok tt, w)
  chmod_all (file ∷ files) w = and_then (host.chmod file.0 (permission_of file) w) (chmod_all files)

  unfoldable pub chmod_walked : Result (List (String × String × Bool)) → W → Result (Unit {0}) × W
  unfolding chmod_all
  chmod_walked (err e) w = (wrapping "determine file permissions: %w" [] (err e), w)
  chmod_walked (ok files) w = chmod_all files w

  -- chmodFiles
  unfoldable pub chmod_files : String → W → Result (Unit {0}) × W
  unfolding chmod_walked
  chmod_files step_dir w = chmod_walked (host.walk step_dir w) w

  abbrev pub made_dir : Result String → W → Result String × (Fetcher × W)
  made_dir (err e) w = (wrapping "creating work dir: %w" [] (err e), (record { work_dir = "" }, w))
  made_dir (ok dir) w = (ok dir, (record { work_dir = dir }, w))

  -- createWorkDir
  unfoldable pub create_work_dir : Fetcher → W → Result String × (Fetcher × W)
  create_work_dir f w =
      if str_eq f.work_dir ""
      then (let made = host.make_temp_dir w in made_dir made.0 made.1)
      else (ok f.work_dir, (f, w))

  abbrev done_in : String → Result (Unit {0}) × W → Result String × W
  done_in work_dir (err e, w) = (err e, w)
  done_in work_dir (ok u, w) = (ok work_dir, w)

  -- Fetch behind the search for the step
  unfoldable pub copy_step : String → String → host.FS → W → Result String × W
  unfolding chmod_files join_path
  copy_step step work_dir step_dir_fs w =
      let download_dir = join_path (work_dir ∷ step ∷ []) in
      if host.path_exists download_dir w
      then (ok work_dir, w)
      else and_then
          (wrapped "fetch dist step %s: copy: %w" (step ∷ [])
            (host.copy_fs download_dir step_dir_fs w))
          (λ w'.
            done_in work_dir
              (wrapped "fetch dist step %s: %w" (step ∷ []) (chmod_files download_dir w')))

  abbrev pub copy_found : String → String → Result host.FS → W → Result String × W
  copy_found step work_dir (err e) w = (wrapping "fetch: %w" [] (err e), w)
  copy_found step work_dir (ok fs) w = copy_step step work_dir fs w

  abbrev pub fetch_in :
      (String → Result host.FS)
      → String
      → Result String × (Fetcher × W)
      → Result String × (Fetcher × W)
  fetch_in finder step (err e, (f, w)) =
      (wrapping "fetch dist step %s: %w" (step ∷ []) (err e), (f, w))
  fetch_in finder step (ok work_dir, (f, w)) =
      let fetched = copy_found step work_dir (finder step) w in (fetched.0, (f, fetched.1))

  -- Fetch, with the finder that the fetcher was made with
  unfoldable pub fetch :
      (String → Result host.FS) → String → Fetcher → W → Result String × (Fetcher × W)
  unfolding create_work_dir copy_step
  fetch finder step f w = fetch_in finder step (create_work_dir f w)

  -- CleanUp
  unfoldable pub clean_up : Fetcher → W → Fetcher × W
  clean_up f w = (record { work_dir = "" }, host.remove_all f.work_dir w)
