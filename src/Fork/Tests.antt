-- ===== src/Fork/Tests.antt =====
-- Runs of `processorState`, and the theorems at a concrete state.
use sqd_go.Base.{ℕ, ◌≡◌, ◌≤◌, refl, none, some, List, [], ◌∷◌, String, arith}
use sqd_go.Chain.{
  BlockRef, Head, find_rollback_index, all_blocks_before, max_block_ref, effective_finalized_head,
}
use sqd_go.Fork.{
  ProcessorState, ok, unable_to_process, rollback_fork, handle_fork, apply_batch,
  append_unfinalized, prune_finalized,
}
use sqd_go.Fork.Invariant.{IsValid, apply_batch-IsValid, apply_batch-finalized_grows}
use sqd_go.Fork.Restore.{Rolled, rollback_fork-Rolled, handle_fork-error}

abbrev block : ℕ → String → BlockRef
block n h = record { number = n; hash = h }

abbrev state : ProcessorState
state = record {
  finalized_head = some (block 10 "a");
  unfinalized_heads = block 11 "b" ∷ block 12 "c" ∷ [];
}

state-IsValid : IsValid state
state-IsValid = record {
  ascending = ((omega arith, tt), (tt, tt));
  above = (omega arith, (omega arith, tt));
  bounded = omega arith;
}

abbrev fork : List BlockRef
fork = block 11 "b" ∷ block 12 "x" ∷ []

abbrev clash : List BlockRef
clash = block 10 "y" ∷ block 11 "z" ∷ []

abbrev header : Head
header = record { finalized = some (block 11 "b"); latest = none }

abbrev batch : List BlockRef
batch = block 13 "d" ∷ block 12 "late" ∷ []

rolled_back :
    rollback_fork state fork
    ≡ (ok (block 11 "b"), record state { unfinalized_heads = block 11 "b" ∷ [] })
unfolding rollback_fork find_rollback_index
rolled_back = refl

applied : apply_batch state header batch ≡ record {
  finalized_head = some (block 11 "b");
  unfinalized_heads = block 12 "c" ∷ block 13 "d" ∷ [];
}
unfolding apply_batch append_unfinalized prune_finalized max_block_ref effective_finalized_head
applied = refl

clash-fails : (handle_fork state clash).0 ≡ some unable_to_process
unfolding handle_fork rollback_fork find_rollback_index all_blocks_before
clash-fails = refl

rollback_fork-Rolled_example : Rolled state fork (rollback_fork state fork)
rollback_fork-Rolled_example = rollback_fork-Rolled state fork

handle_fork-error_example :
    ((handle_fork state clash).1 ≡ state) × ((f : BlockRef) × (state.finalized_head ≡ some f))
handle_fork-error_example = handle_fork-error state clash unable_to_process clash-fails

apply_batch-IsValid_example : IsValid (apply_batch state header batch)
apply_batch-IsValid_example = apply_batch-IsValid state header batch state-IsValid

apply_batch-finalized_grows_example :
    (g : BlockRef) × ((apply_batch state header batch).finalized_head ≡ some g) × (10 ≤ g.number)
apply_batch-finalized_grows_example =
    apply_batch-finalized_grows state header batch (block 10 "a") refl
