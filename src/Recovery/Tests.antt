-- ===== src/Recovery/Tests.antt =====
-- The theorems on recovery at a concrete saved state.
use sqd_go.Base.{◌≡◌, refl, none, some, [], ◌∷◌, false, true, ◌↔◌}
use sqd_go.Recovery.{SyncState, RecoveryBase, select_recovery_base, recovery_sync_state}
use sqd_go.Recovery.Restart.{Selected, Written, select_recovery_base-Selected}

abbrev saved : SyncState
saved = record {
  current = record { number = 12; hash = "c" };
  finalized = none;
  rollback_chain = record { number = 11; hash = "" } ∷ record { number = 12; hash = "c" } ∷ [];
}

abbrev saved_base : RecoveryBase
saved_base = record {
  number = 12;
  hash = "c";
  from_finalized = false;
  tracker_current = some (record { number = 12; hash = "c" });
  tracker_finalized = none;
  tracker_rollback_chain = record { number = 12; hash = "c" } ∷ [];
}

select_recovery_base-Selected_example :
    ((select_recovery_base (some saved) ≡ some saved_base) ↔ Selected saved saved_base)
    × Written saved_base (recovery_sync_state saved_base)
select_recovery_base-Selected_example = select_recovery_base-Selected saved saved_base

selected : select_recovery_base (some saved) ≡ some saved_base
unfolding select_recovery_base
selected = refl

at_finalized_cursor :
    select_recovery_base
      (some (record saved { finalized = some (record { number = 9; hash = "f" }) }))
    ≡ some (record {
      number = 9;
      hash = "f";
      from_finalized = true;
      tracker_current = some (record { number = 9; hash = "f" });
      tracker_finalized = some (record { number = 9; hash = "f" });
      tracker_rollback_chain = [];
    })
unfolding select_recovery_base
at_finalized_cursor = refl

-- The finalized block itself is not written again.
filtered :
    (recovery_sync_state (record saved_base {
      tracker_finalized = some (record { number = 11; hash = "b" });
      tracker_rollback_chain =
          record { number = 11; hash = "b" } ∷ record { number = 12; hash = "c" } ∷ [];
    })).rollback_chain
    ≡ record { number = 12; hash = "c" } ∷ []
unfolding recovery_sync_state
filtered = refl
