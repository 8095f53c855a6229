-- ===== src/ForkTracker/Laws.antt =====
-- The tracker on a ring that holds a list of blocks.
use sqd_go.Base.{◌≡◌, refl, ap, length, Option, none, some, List, [], ◌>>=◌, last?}
use sqd_go.Chain.{BlockRef, effective_finalized_head}
use sqd_go.Fork.{ProcessorState, Result, ok, err, ForkError, rollback_fork}
use sqd_go.Ring.{capacity, Ring, Outcome}
use sqd_go.Ring.Window.{Represents}
use sqd_go.Ring.Resolve.{SameFork, both_found, both_failed, state_of, find_common_ancestor_refines}
use sqd_go.ForkTracker.{
  RingTracker, settle, handle_fork, apply_batch, init, batch_current, current_or,
}
use sqd_go.Ring.Batch.{
  append_heads, raised, pruned_by, newest_or, head-of_list, apply_batch_lem, init_lem,
}

-- The tracker's answer to a fork against that of `rollbackFork`.
pub data Answered (t : RingTracker) (s : ProcessorState)
    : Option (Option BlockRef × RingTracker) → Result BlockRef × ProcessorState → Type 0 where
  rolled :
      (b : BlockRef) (r : Ring) (s' : ProcessorState)
      → Represents r s'.unfinalized_heads
      → r.finalized_head ≡ s'.finalized_head
      → Answered t s (some (some b, record { ring = r; current = some b })) (ok b, s')
  kept : (e : ForkError) → Answered t s (some (none, t)) (err e, s)

settled :
    (t : RingTracker) (s : ProcessorState) (o : Option (Outcome × Ring))
    (p : Result BlockRef × ProcessorState)
    → SameFork t.ring s o p
    → Answered t s (o >>= λ out. some (settle t out)) p
unfolding settle
settled t s _ _ (both_found b r s' v e) = rolled b r s' v e
settled t s _ _ (both_failed e e') = kept e'

-- On a tracker whose ring holds the heads `heads`, `HandleFork` does not panic. It answers with the
-- block that `rollbackFork` rolls back to, makes it the current one, and leaves the ring with the
-- heads that the state is left with; or both fail, and neither changes.
pub handle_fork-Answered :
    (t : RingTracker) (heads previous : List BlockRef)
    → Represents t.ring heads
    → Answered t
        (state_of t.ring.finalized_head heads)
        (handle_fork t previous)
        (rollback_fork (state_of t.ring.finalized_head heads) previous)
unfolding handle_fork
handle_fork-Answered t heads previous v =
    settled t (state_of t.ring.finalized_head heads) _ _
      (find_common_ancestor_refines t.ring heads previous v)

-- The tracker after a call that does not panic.
pub record Updated (o : Option RingTracker) (finalized current : Option BlockRef)
    (heads : List BlockRef) : Type 0 where
  pub tracker : RingTracker
  pub returned : o ≡ some tracker
  pub holds : Represents tracker.ring heads
  pub finalized_is : tracker.ring.finalized_head ≡ finalized
  pub current_is : tracker.current ≡ current

-- The current block: the one given, else the newest head, else the finalized one.
abbrev pub current_of : Option BlockRef → List BlockRef → Option BlockRef → Option BlockRef
current_of none heads finalized = newest_or (last? heads) finalized
current_of (some c) heads finalized = some c

updated :
    (c finalized : Option BlockRef) (r : Ring) (heads : List BlockRef)
    → Represents r heads
    → r.finalized_head ≡ finalized
    → Updated
        (current_or c r >>= λ c'. some (record { ring = r; current = c' }))
        finalized
        (current_of c heads finalized)
        heads
updated none finalized r heads v e = rw (head-of_list r heads v) (record {
  tracker = _;
  returned = refl;
  holds = v;
  finalized_is = e;
  current_is = ap (newest_or (last? heads)) e;
})
updated (some c) finalized r heads v e = record {
  tracker = _;
  returned = refl;
  holds = v;
  finalized_is = e;
  current_is = refl;
}

-- On a tracker whose ring holds the heads `heads`, `ApplyBatch` does not panic. The ring is left with
-- the heads and the finalized head of `BlockRingBuffer.ApplyBatch`. The current block is the last of
-- the batch; for an empty batch it is the old one, or where there is none the newest head left, or the
-- finalized one.
apply_batch-Updated :
    (t : RingTracker) (finalized : Option BlockRef) (blocks heads : List BlockRef)
    → Represents t.ring heads
    → let effective = effective_finalized_head finalized blocks in
      let raised_to = raised t.ring.finalized_head effective in
      let left =
        append_heads capacity raised_to (pruned_by t.ring.finalized_head effective heads) blocks in
      Updated
        (apply_batch t finalized blocks)
        raised_to
        (current_of (batch_current t.current blocks) left raised_to)
        left
unfolding apply_batch
apply_batch-Updated t finalized blocks heads v =
    let y =
      apply_batch_lem t.ring (record { finalized = finalized; latest = none }) blocks heads v in
    rw y.returned (updated (batch_current t.current blocks) _ y.ring _ y.holds y.finalized_is)

-- `Init` on a tracker whose ring has its 1024 places does not panic. The ring is left with the blocks
-- of the chain appended in turn to nothing, and the current block is the given one, or the newest
-- head left, or the finalized one.
pub init-Updated :
    (t : RingTracker) (current finalized : Option BlockRef) (chain : List BlockRef)
    → length t.ring.buffer ≡ 1024
    → let left = append_heads capacity finalized [] chain in
      Updated (init t current finalized chain) finalized (current_of current left finalized) left
unfolding init
init-Updated t current finalized chain size =
    let y = init_lem t.ring finalized chain size in
    rw y.returned (updated current _ y.ring _ y.holds y.finalized_is)
