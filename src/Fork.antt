-- ===== src/Fork.antt =====
-- internal/ingestion/fork.go, `processorState`: the finalized head and the blocks above it that a
-- rollback may still drop. A method that changes the receiver returns the new state.
pub mod Invariant
pub mod Restore
mod Tests
use sqd_go.Base.{
  ℕ, zero, suc, ◌+◌, ◌-◌, ◌<◌, Bool, true, false, Option, none, some, List, [], ◌∷◌, ◌++◌, ltb, leb,
  ◌==◌, if◌then◌else◌, get_elem?, last?, set_last, take, drop, length,
}
use sqd_go.Chain.{
  BlockRef, Head, find_rollback_index, all_blocks_before, effective_finalized_head, max_block_ref,
}

pub record ProcessorState : Type 0 where
  pub finalized_head : Option BlockRef
  pub unfinalized_heads : List BlockRef

-- The errors of `rollbackFork`, by their texts.
pub data ForkError : Type 0 where
  unable_to_process unable_without_finalized : ForkError

pub data Result {ℓ} (A : Type ℓ) : Type ℓ where
  ok : A → Result A
  err : ForkError → Result A

unfoldable pub head : ProcessorState → Option BlockRef
head s = elim (last? s.unfinalized_heads) [ some b ↦ some b | none ↦ s.finalized_head ]

unfoldable pub init : Option BlockRef → List BlockRef → ProcessorState
init finalized heads = record { finalized_head = finalized; unfinalized_heads = heads }

-- `chain`: the finalized head, if there is one, before the unfinalized ones.
abbrev pub with_finalized : Option BlockRef → List BlockRef → List BlockRef
with_finalized none heads = heads
with_finalized (some f) heads = f ∷ heads

abbrev pub start_index : Option BlockRef → ℕ
start_index none = 0
start_index (some f) = 1

unfoldable pub rollback_failed :
    ProcessorState → Option BlockRef → List BlockRef → Result BlockRef × ProcessorState
rollback_failed s none previous = (err unable_without_finalized, s)
rollback_failed s (some f) previous =
    if all_blocks_before previous f.number
    then (ok f, record s { unfinalized_heads = [] })
    else (err unable_to_process, s)

-- `chain[rollbackIndex]` is in range, as `findRollbackIndex` returns an index of the chain; a read
-- out of range is the error path here, and `Restore` shows that it is not taken.
unfoldable pub rollback_to : ProcessorState → ℕ → Option BlockRef → Result BlockRef × ProcessorState
rollback_to s k none = (err unable_to_process, s)
rollback_to s k (some b) = (
  ok b,
  record s { unfinalized_heads = drop (start_index s.finalized_head) (take (k + 1) chain) },
)
  where
    chain : List BlockRef
    chain = with_finalized s.finalized_head s.unfinalized_heads

unfoldable pub rollback_fork : ProcessorState → List BlockRef → Result BlockRef × ProcessorState
unfolding rollback_failed rollback_to
rollback_fork s previous =
    let chain = with_finalized s.finalized_head s.unfinalized_heads in
    elim (find_rollback_index chain previous) [
      | none ↦ rollback_failed s s.finalized_head previous
      | some k ↦ rollback_to s k (get_elem? chain k)
    ]

-- The result is the error that `handleFork` returns, `none` for nil.
handle_outcome : Result BlockRef × ProcessorState → Option ForkError × ProcessorState
handle_outcome (ok b, s) = (none, s)
handle_outcome (err e, s) = elim s.finalized_head [
  | none ↦ (none, record s { unfinalized_heads = [] })
  | some f ↦ (some e, s)
]

unfoldable pub handle_fork : ProcessorState → List BlockRef → Option ForkError × ProcessorState
unfolding handle_outcome
handle_fork s previous = handle_outcome (rollback_fork s previous)

abbrev pub max_rollback_heads : ℕ
max_rollback_heads = 4096

-- `block` is at or below the finalized head.
abbrev pub below_finalized : Option BlockRef → BlockRef → Bool
below_finalized none b = false
below_finalized (some f) b = leb b.number f.number

unfoldable pub cap_heads : ℕ → List BlockRef → List BlockRef
cap_heads limit heads =
    if ltb limit (length heads) then drop (length heads - limit) heads else heads

-- What `appendUnfinalized` does to the list of heads; `limit` is the constant 4096 there.
unfoldable pub append_after : ℕ → List BlockRef → Option BlockRef → BlockRef → List BlockRef
unfolding cap_heads
append_after limit heads none b = cap_heads limit (heads ++ (b ∷ []))
append_after limit heads (some last) b =
    if ltb b.number last.number
    then heads
    else if b.number == last.number
    then set_last heads b
    else cap_heads limit (heads ++ (b ∷ []))

unfoldable pub append_head : ℕ → Option BlockRef → List BlockRef → BlockRef → List BlockRef
unfolding append_after
append_head limit finalized heads b =
    if below_finalized finalized b then heads else append_after limit heads (last? heads) b

unfoldable pub append_unfinalized : ProcessorState → BlockRef → ProcessorState
unfolding append_head
append_unfinalized s b = record s {
  unfinalized_heads = append_head max_rollback_heads s.finalized_head s.unfinalized_heads b;
}

-- The loop over `idx`, which drops the heads that the finalized one covers.
unfoldable pub prune_heads : ℕ → List BlockRef → List BlockRef
prune_heads n [] = []
prune_heads n (b ∷ bs) = if leb b.number n then prune_heads n bs else b ∷ bs

unfoldable pub prune_finalized : ProcessorState → ProcessorState
unfolding prune_heads
prune_finalized s = elim s.finalized_head [
  | none ↦ s
  | some f ↦ record s { unfinalized_heads = prune_heads f.number s.unfinalized_heads }
]

unfoldable pub append_all : ProcessorState → List BlockRef → ProcessorState
append_all s [] = s
append_all s (b ∷ bs) = append_all (append_unfinalized s b) bs

unfoldable pub apply_batch : ProcessorState → Head → List BlockRef → ProcessorState
unfolding append_all
apply_batch s header blocks =
    let finalized = effective_finalized_head header.finalized blocks in
    let advanced = record s { finalized_head = max_block_ref finalized s.finalized_head } in
    append_all (prune_finalized advanced) blocks

abbrev pub rollback_chain : ProcessorState → List BlockRef
rollback_chain s = s.unfinalized_heads

abbrev pub finalized : ProcessorState → Option BlockRef
finalized s = s.finalized_head
