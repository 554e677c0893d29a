-- ===== src/Service/SyncMap.antt =====
-- pkg/internal/syncmap: a map behind a lock. Each operation holds the lock from its start to its end, so
-- that it is one step.
use step_runner.Common.{String, Option, List, [], Map, lookup, put, delete, map}

pub record SyncMap {ℓ} (V : Type ℓ) : Type ℓ where
  pub entries : Map V

module _ {ℓ} {V : Type ℓ} where
  abbrev pub new_map : SyncMap V
  new_map = record { entries = [] }

  -- Put, Get, Remove and Keys
  abbrev pub put_entry : String → V → SyncMap V → SyncMap V
  put_entry key value m = record { entries = put key value m.entries }

  abbrev pub get : String → SyncMap V → Option V
  get key m = lookup key m.entries

  abbrev pub remove : String → SyncMap V → SyncMap V
  remove key m = record { entries = delete key m.entries }

  abbrev pub keys : SyncMap V → List String
  keys m = map (λ b. b.0) m.entries

  -- ForEach with a function that adds to a list
  abbrev pub collect {κ} : {A : Type κ} → (String → V → A) → SyncMap V → List A
  collect f m = map (λ b. f b.0 b.1) m.entries
