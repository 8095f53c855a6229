-- ===== src/Recovery.antt =====
-- internal/ingestion/recovery.go, with the structs of internal/database/clickhouse.go and the
-- conversions of internal/ingestion/ingestion.go that it uses: where ingestion starts again from a
-- saved state. `saved == nil` and `!hasSaved` are both the missing state.
pub mod Restart
mod Tests
use sqd_go.Base.{
  ℕ, Bool, true, false, Option, none, some, List, [], ◌∷◌, String, str_eq, leb, if◌then◌else◌, map,
  ◌&&◌, not,
}
use sqd_go.Chain.{BlockRef}

pub record SyncCursor : Type 0 where
  pub number : ℕ
  pub hash : String

pub record SyncState : Type 0 where
  pub current : SyncCursor
  pub finalized : Option SyncCursor
  pub rollback_chain : List SyncCursor

pub record RecoveryBase : Type 0 where
  pub number : ℕ
  pub hash : String
  pub from_finalized : Bool
  pub tracker_current : Option BlockRef
  pub tracker_finalized : Option BlockRef
  pub tracker_rollback_chain : List BlockRef

abbrev to_ref : SyncCursor → BlockRef
to_ref c = record { number = c.number; hash = c.hash }

pub sync_cursor_to_block_ref : Option SyncCursor → Option BlockRef
sync_cursor_to_block_ref none = none
sync_cursor_to_block_ref (some c) = if str_eq c.hash "" then none else some (to_ref c)

block_ref_to_sync_cursor : BlockRef → SyncCursor
block_ref_to_sync_cursor b = record { number = b.number; hash = b.hash }

block_ref_ptr_to_sync_cursor : Option BlockRef → Option SyncCursor
unfolding block_ref_to_sync_cursor
block_ref_ptr_to_sync_cursor none = none
block_ref_ptr_to_sync_cursor (some b) = some (block_ref_to_sync_cursor b)

pub sync_cursors_to_block_refs : List SyncCursor → List BlockRef
sync_cursors_to_block_refs [] = []
sync_cursors_to_block_refs (c ∷ cs) =
    if str_eq c.hash ""
    then sync_cursors_to_block_refs cs
    else to_ref c ∷ sync_cursors_to_block_refs cs

pub block_refs_to_sync_cursors : List BlockRef → List SyncCursor
unfolding block_ref_to_sync_cursor
block_refs_to_sync_cursors [] = []
block_refs_to_sync_cursors (b ∷ bs) = block_ref_to_sync_cursor b ∷ block_refs_to_sync_cursors bs

base_from_finalized : BlockRef → RecoveryBase
base_from_finalized f = record {
  number = f.number;
  hash = f.hash;
  from_finalized = true;
  tracker_current = some f;
  tracker_finalized = some f;
  tracker_rollback_chain = [];
}

base_from_current : SyncState → RecoveryBase
unfolding sync_cursor_to_block_ref sync_cursors_to_block_refs
base_from_current saved = record {
  number = saved.current.number;
  hash = saved.current.hash;
  from_finalized = false;
  tracker_current = sync_cursor_to_block_ref (some saved.current);
  tracker_finalized = none;
  tracker_rollback_chain = sync_cursors_to_block_refs saved.rollback_chain;
}

pub select_from : SyncState → Option BlockRef → RecoveryBase
unfolding base_from_finalized base_from_current
select_from saved none = base_from_current saved
select_from saved (some f) = base_from_finalized f

pub select_recovery_base : Option SyncState → Option RecoveryBase
unfolding select_from
select_recovery_base none = none
select_recovery_base (some saved) =
    some (select_from saved (sync_cursor_to_block_ref saved.finalized))

keep_unfinalized : List BlockRef → ℕ → List BlockRef
keep_unfinalized [] n = []
keep_unfinalized (b ∷ bs) n =
    if leb b.number n then keep_unfinalized bs n else b ∷ keep_unfinalized bs n

filter_unfinalized_rollback_chain : List BlockRef → Option BlockRef → List BlockRef
unfolding keep_unfinalized
filter_unfinalized_rollback_chain refs none = refs
filter_unfinalized_rollback_chain refs (some f) = keep_unfinalized refs f.number

pub recovery_sync_state : RecoveryBase → SyncState
unfolding filter_unfinalized_rollback_chain block_refs_to_sync_cursors block_ref_ptr_to_sync_cursor
recovery_sync_state base = record {
  current = record { number = base.number; hash = base.hash };
  finalized = block_ref_ptr_to_sync_cursor base.tracker_finalized;
  rollback_chain =
      block_refs_to_sync_cursors
        (filter_unfinalized_rollback_chain base.tracker_rollback_chain base.tracker_finalized);
}
