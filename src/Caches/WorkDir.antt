-- ===== src/Caches/WorkDir.antt =====
-- The directory that distributed steps are copied to.
use step_runner.Common.{
  String, ◌≡◌, ap, sym, ◌∙◌, true, str_eq, Result, ok, inl, inr, ◌⊎◌, arith, Bool-cases,
  Result-cases,
}
use step_runner.Caches.Dist.{DistHost, Fetcher, create_work_dir, copy_step, fetch_in, fetch}

module _ {W : Type 0} (host : DistHost W) where
  copy_step-dir :
      (step work_dir dir : String) (fs : host.FS) (w w' : W)
      → copy_step host step work_dir fs w ≡ (ok dir, w')
      → dir ≡ work_dir
  unfolding copy_step
  copy_step-dir step work_dir dir fs w w' h = ground arith

  fetch_in-dir :
      (finder : String → Result host.FS) (step work_dir dir : String) (f f' : Fetcher) (w w' : W)
      → fetch_in host finder step (ok work_dir, (f, w)) ≡ (ok dir, (f', w'))
      → (dir ≡ work_dir) × (f' ≡ f)
  fetch_in-dir finder step work_dir dir f f' w w' h = elim (Result-cases (finder step)) [
    | inr (e, q) ↦ absurd (ground arith)
    | inl (fs, q) ↦
        let copied = copy_step host step work_dir fs w in
        let gave : copied.0 ≡ ok dir = ground arith in
        let pair : copied ≡ (ok dir, copied.1) = ap (λ r. (r, copied.1)) gave in
        (copy_step-dir step work_dir dir fs w (copied.1) pair, ground arith)
  ]

  -- What Fetch returns is the fetcher's own directory from then on, and it is the one that the fetcher
  -- had, if it had one.
  pub fetch-work_dir :
      (finder : String → Result host.FS) (step dir : String) (f f' : Fetcher) (w w' : W)
      → fetch host finder step f w ≡ (ok dir, (f', w'))
      → (f'.work_dir ≡ dir) × ((f.work_dir ≡ dir) ⊎ (str_eq f.work_dir "" ≡ true))
  unfolding fetch create_work_dir
  fetch-work_dir finder step dir f f' w w' h = elim (Bool-cases (str_eq f.work_dir "")) [
    | inr had ↦
        let h' : fetch_in host finder step (ok f.work_dir, (f, w)) ≡ (ok dir, (f', w')) =
          rw (had, fetch) at h in
        let (same, kept) = fetch_in-dir finder step f.work_dir dir f f' w w' h' in
        (ap (λ g. g.work_dir) kept ∙ sym same, inl (sym same))
    | inl none_yet ↦ elim (Result-cases ((host.make_temp_dir w).0)) [
      | inr (e, q) ↦ absurd (ground arith)
      | inl (made, q) ↦
          let g : Fetcher = record { work_dir = made } in
          let w1 = (host.make_temp_dir w).1 in
          let h' : fetch_in host finder step (ok made, (g, w1)) ≡ (ok dir, (f', w')) =
            rw (none_yet, q, fetch) at h in
          let (same, kept) = fetch_in-dir finder step made dir g f' w1 w' h' in
          (ap (λ k. k.work_dir) kept ∙ sym same, inr none_yet)
    ]
  ]
