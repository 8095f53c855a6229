-- ===== src/ForkTracker.antt =====
-- internal/ingestion/tracker.go: the `ForkTracker` that ingestion uses, a ring with the current block
-- beside it. `NewForkTracker` builds it whatever the mode. `none` on the outside is a panic of the
-- ring.
pub mod Laws
mod Tests
use sqd_go.Base.{ℕ, Option, none, some, List, [], ◌∷◌, ◌>>=◌, last?}
use sqd_go.Chain.{BlockRef, Head}
use sqd_go.Ring as RingBuffer
use sqd_go.Ring.{Ring, Outcome, found, failed, head as newest_block}

pub record RingTracker : Type 0 where
  pub ring : Ring
  pub current : Option BlockRef

unfoldable pub new_fork_tracker : RingTracker
new_fork_tracker = record { ring = RingBuffer.new_ring; current = none }

-- `Head` of the ring where there is no current block.
abbrev pub current_or : Option BlockRef → Ring → Option (Option BlockRef)
current_or none r = newest_block r
current_or (some c) r = some (some c)

pub init : RingTracker → Option BlockRef → Option BlockRef → List BlockRef → Option RingTracker
init t current finalized chain = do
  r ← RingBuffer.init t.ring finalized chain
  c ← current_or current r
  some (record { ring = r; current = c })

unfoldable pub head : RingTracker → Option (Option BlockRef)
head t = current_or t.current t.ring

-- The block and the Boolean result; `none` inside is `client.BlockRef{}, false`.
settle : RingTracker → Outcome × Ring → Option BlockRef × RingTracker
settle t (found none, r) = (none, record t { ring = r })
settle t (found (some safe), r) = (some safe, record { ring = r; current = some safe })
settle t (failed e, r) = (none, record t { ring = r })

pub handle_fork : RingTracker → List BlockRef → Option (Option BlockRef × RingTracker)
unfolding settle
handle_fork t previous = do
  out ← RingBuffer.find_common_ancestor t.ring previous
  some (settle t out)

-- The last block of the batch, or the old one.
abbrev pub batch_current : Option BlockRef → List BlockRef → Option BlockRef
batch_current old [] = old
batch_current old (b ∷ bs) = last? (b ∷ bs)

pub apply_batch : RingTracker → Option BlockRef → List BlockRef → Option RingTracker
apply_batch t finalized blocks = do
  r ← RingBuffer.apply_batch t.ring (record { finalized = finalized; latest = none }) blocks
  c ← current_or (batch_current t.current blocks) r
  some (record { ring = r; current = c })

abbrev finalized_high_watermark : RingTracker → Option BlockRef
finalized_high_watermark t = t.ring.finalized_head

abbrev recent_unfinalized_blocks : RingTracker → Option (List BlockRef)
recent_unfinalized_blocks t = RingBuffer.get_chain t.ring
