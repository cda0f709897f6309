-- ===== src/Edge/Store/Samples.antt =====
-- An example for the store loop: the disk fails, the database fails, then nothing does.
use splitforge.Prelude.{ℕ, ◌≡◌, refl, true, false, List, [], ◌∷◌, some, done, arith, All, inl, inr}
use splitforge.Prelude.Int.{pos, ltb_ℤ}
use splitforge.Storage.Record.{storable}
use splitforge.Storage.Sidecar.{synced, cut}
use splitforge.Storage.Plain.{plain_api}
use splitforge.Storage.Samples.{lap_read, of_two}
use splitforge.Storage.Journal.{has_id, row_ids}
use splitforge.Edge.Store.{journaled, Device, Attempt, store}
use splitforge.Edge.Store.Retry.{IsDelay, store-journaled}

abbrev three_attempts : List (Attempt plain_api ltb_ℤ)
three_attempts =
    (false, record { transaction = true; disk = cut 3; checkpointed = true; now = pos 1 })
    ∷ (false, record { transaction = false; disk = synced; checkpointed = true; now = pos 2 })
    ∷ (true, record { transaction = true; disk = synced; checkpointed = false; now = pos 3 })
    ∷ []

abbrev device : Device plain_api ltb_ℤ
device = record {
  journal = record {
    rows = [];
    checkpoints = [];
    audit = [];
    sidecar = some of_two;
    unconfirmed = false;
  };
  unstorable_reads = [];
  faulty = false;
}

store-journaled_example :
    (delays : List ℕ) × (after : Device plain_api ltb_ℤ) × (store plain_api ltb_ℤ three_attempts
        (lap_read 4)
        device
      ≡ done (journaled, delays, after))
    × (has_id (row_ids after.journal.rows) 4 ≡ true)
    × All (IsDelay plain_api ltb_ℤ) delays
unfolding storable has_id
store-journaled_example =
    store-journaled plain_api ltb_ℤ three_attempts (lap_read 4) device of_two refl
      (omega arith, (omega arith, tt)) (refl, (refl, (refl, tt))) (inr (inr (inl (refl, refl))))
      refl refl
