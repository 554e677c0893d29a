-- ===== src/Oci/World.antt =====
-- Calls that change the world and may fail, one behind the other.
use step_runner.Common.{String, List, Result, ok, err, wrapping}

module _ {W A B : Type 0} where
  -- a call, with what comes behind it unless it fails
  abbrev pub and_then : Result A × W → (A → W → Result B × W) → Result B × W
  and_then (err e, w) next = (err e, w)
  and_then (ok a, w) next = next a w

module _ {W A : Type 0} where
  -- `fmt.Errorf` around the error of a call
  abbrev pub wrapped : String → List String → Result A × W → Result A × W
  wrapped format args (r, w) = (wrapping format args r, w)

  -- a deferred call, whose error is dropped
  abbrev pub deferring : (W → W) → Result A × W → Result A × W
  deferring last (r, w) = (r, last w)

  -- a call that is made only if the one before it has failed
  abbrev pub on_error : (W → W) → Result A × W → Result A × W
  on_error undo (ok a, w) = (ok a, w)
  on_error undo (err e, w) = (err e, undo w)
