-- ===== src/ForkSqd/Tests.antt =====
-- Runs of the tracker, and the theorems at a concrete one.
use sqd_go.Base.{ℕ, ◌≡◌, refl, none, some, List, [], ◌∷◌, String, arith}
use sqd_go.Chain.{BlockRef}
use sqd_go.Fork.{rollback_fork}
use sqd_go.ForkSqd.{Tracker, apply_batch, add_batch, handle_fork, append_recent}
use sqd_go.ForkSqd.Invariant.{IsOrdered, IsValid, batch-IsValid}
use sqd_go.ForkSqd.Fork.{Handled, beside, handle_fork-Handled}

abbrev block : ℕ → String → BlockRef
block n h = record { number = n; hash = h }

abbrev tracker : Tracker
tracker = record {
  current = some (block 12 "c");
  recent = block 11 "b" ∷ block 12 "c" ∷ [];
  watermark = some (block 10 "a");
  limit = 3;
}

tracker-IsOrdered : IsOrdered tracker.watermark tracker.recent
tracker-IsOrdered = record {
  ascending = ((omega arith, tt), (tt, tt));
  above = (omega arith, (omega arith, tt));
}

tracker-IsValid : IsValid tracker
tracker-IsValid = record {
  limited = omega arith;
  ordered = tracker-IsOrdered;
  bounded = omega arith;
}

abbrev fork : List BlockRef
fork = block 11 "b" ∷ block 12 "x" ∷ []

abbrev batch : List BlockRef
batch = block 13 "d" ∷ block 14 "e" ∷ []

forked : handle_fork tracker fork ≡ (
  some (block 11 "b"),
  record tracker { recent = block 11 "b" ∷ []; current = some (block 11 "b") },
)
unfolding handle_fork
forked = refl

applied : apply_batch tracker none batch ≡ record tracker {
  current = some (block 14 "e");
  recent = block 12 "c" ∷ block 13 "d" ∷ block 14 "e" ∷ [];
}
unfolding apply_batch append_recent
applied = refl

handle_fork-Handled_example :
    Handled tracker
      (rollback_fork (beside tracker fork tracker.watermark) fork)
      (handle_fork tracker fork)
handle_fork-Handled_example = handle_fork-Handled tracker fork (omega arith, (omega arith, tt))

batch-IsValid_example :
    IsValid (apply_batch tracker (some (block 13 "d")) batch)
    × IsValid (add_batch tracker (some (block 13 "d")) batch)
batch-IsValid_example = batch-IsValid tracker (some (block 13 "d")) batch tracker-IsValid
