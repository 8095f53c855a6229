-- ===== src/ForkTracker/Tests.antt =====
-- The theorems on the tracker at a new one.
use sqd_go.Base.{ℕ, none, some, List, [], ◌∷◌, String, length-replicate}
use sqd_go.Chain.{BlockRef}
use sqd_go.Fork.{rollback_fork}
use sqd_go.Ring.{new_ring, no_block, capacity}
use sqd_go.Ring.Resolve.{state_of}
use sqd_go.Ring.Batch.{append_heads}
use sqd_go.ForkTracker.{RingTracker, handle_fork, init}
use sqd_go.ForkTracker.Laws.{Answered, handle_fork-Answered, Updated, current_of, init-Updated}

abbrev block : ℕ → String → BlockRef
block n h = record { number = n; hash = h }

abbrev batch : List BlockRef
batch = block 11 "b" ∷ block 12 "c" ∷ []

abbrev fork : List BlockRef
fork = block 11 "b" ∷ block 12 "x" ∷ []

abbrev fresh : RingTracker
fresh = record { ring = new_ring; current = none }

started :
    Updated
      (init fresh none (some (block 10 "a")) batch)
      (some (block 10 "a"))
      (current_of none (append_heads capacity (some (block 10 "a")) [] batch) (some (block 10 "a")))
      (append_heads capacity (some (block 10 "a")) [] batch)
unfolding new_ring
started = init-Updated fresh none (some (block 10 "a")) batch (length-replicate 1024 no_block)

handle_fork-Answered_example :
    Answered started.tracker
      (state_of started.tracker.ring.finalized_head
        (append_heads capacity (some (block 10 "a")) [] batch))
      (handle_fork started.tracker fork)
      (rollback_fork
        (state_of started.tracker.ring.finalized_head
          (append_heads capacity (some (block 10 "a")) [] batch))
        fork)
handle_fork-Answered_example =
    handle_fork-Answered started.tracker (append_heads capacity (some (block 10 "a")) [] batch) fork
      started.holds
