-- ===== src/Promote/Copies.antt =====
-- What is copied before an error.
use step_runner.Common.{◌≡◌, List, ◌∷◌, ◌++◌, Error, ok, err}
use step_runner.Promote.ImageRef.{Names}
use step_runner.Promote.Remote.{Registry, copy_ref, copy_all}

module _ {W : Type 0} (ns : Names) (r : Registry ns W) where
  -- The references before one of the list were all copied to, and copying to that one failed.
  abbrev pub StoppedAt : ns.Reference → List ns.Reference → Error → W → W → Type 0
  StoppedAt from refs e w w' =
      (before : List ns.Reference) × (to : ns.Reference) × (behind : List ns.Reference) × (w1 : W)
      × (refs ≡ before ++ to ∷ behind)
      × (copy_all ns r from before w ≡ (ok tt, w1))
      × (copy_ref ns r from to w1 ≡ (err e, w'))
