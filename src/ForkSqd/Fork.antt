-- ===== src/ForkSqd/Fork.antt =====
-- `HandleFork` against `rollbackFork` of internal/ingestion/fork.go.
use sqd_go.Base.{
  ℕ, zero, suc, ◌+◌, ◌≡◌, refl, ap, ◌∙◌, false, Option, none, some, List, [], ◌∷◌, inl, inr,
  Bool-cases, arith, get_elem?, ltb, leb, drop, take,
}
use sqd_go.Chain.{BlockRef}
use sqd_go.Chain
use sqd_go.Chain.Order.{Above, AboveHead}
use sqd_go.Fork.{
  ProcessorState, Result, ok, err, ForkError, rollback_failed, rollback_to, rollback_fork,
  with_finalized,
}
use sqd_go.ForkSqd.{
  Tracker, filter_recent, fork_below, fork_to, handle_fork, find_rollback_index, current_chain,
}
use sqd_go.ForkSqd.Same.{find_rollback_index_same, all_before_same}

-- The same block and the same blocks left, or a failure of both, on which the tracker forgets all but
-- its watermark.
pub data Handled (t : Tracker)
    : Result BlockRef × ProcessorState → Option BlockRef × Tracker → Type 0 where
  rolled :
      (b : BlockRef) (s : ProcessorState)
      → s.finalized_head ≡ t.watermark
      → Handled t (ok b, s) (some b, record t { recent = s.unfinalized_heads; current = some b })
  lost :
      (e : ForkError) (s : ProcessorState)
      → Handled t (err e, s) (none, record t { recent = []; current = none })

filter_all-Above :
    (n : ℕ) (bs : List BlockRef) → Above n bs → filter_recent (λ b. leb b.number n) bs ≡ []
unfolding filter_recent
filter_all-Above n [] a = refl
filter_all-Above n (b ∷ bs) a = ground (arith, filter_all-Above n bs a.1)

module _ (t₀ : Tracker) (previous : List BlockRef) where
  abbrev under : Option BlockRef → Tracker
  under o = record t₀ { watermark = o }

  abbrev pub beside : Option BlockRef → ProcessorState
  beside o = record { finalized_head = o; unfinalized_heads = t₀.recent }

  handled_below :
      (o : Option BlockRef)
      → AboveHead o t₀.recent
      → Handled (under o) (rollback_failed (beside o) o previous) (fork_below (under o) o previous)
  unfolding rollback_failed fork_below
  handled_below none a = lost _ _
  handled_below (some f) a = elim (Bool-cases (Chain.all_blocks_before previous f.number)) [
    | inl old ↦
        rw (all_before_same previous f.number, old, filter_all-Above f.number t₀.recent a)
          (rolled f (record (beside (some f)) { unfinalized_heads = [] }) refl)
    | inr new ↦ rw (all_before_same previous f.number, new) (lost _ _)
  ]

  handled_to :
      (o : Option BlockRef) (k : ℕ) (b : Option BlockRef)
      → Handled (under o) (rollback_to (beside o) k b) (fork_to (under o) k b)
  unfolding rollback_to fork_to
  handled_to o k none = lost _ _
  handled_to none k (some b) =
      let up : ltb k 0 ≡ false = ground arith in
      rw up (rolled b (record (beside none) { unfinalized_heads = take (k + 1) t₀.recent }) refl)
  handled_to (some f) zero (some b) =
      rolled b (record (beside (some f)) { unfinalized_heads = [] }) refl
  handled_to (some f) (suc k) (some b) =
      let up : ltb (suc k) 1 ≡ false = ground arith in
      rw up (
        rolled b
          (record (beside (some f)) {
            unfinalized_heads = drop 1 (take (suc k + 1) (f ∷ t₀.recent));
          })
          refl)

  handled :
      (o : Option BlockRef)
      → AboveHead o t₀.recent
      → Handled (under o) (rollback_fork (beside o) previous) (handle_fork (under o) previous)
  unfolding rollback_fork handle_fork
  handled o a = go o a (Chain.find_rollback_index (with_finalized o t₀.recent) previous) refl
    where
      chain_same : (q : Option BlockRef) → current_chain q t₀.recent ≡ with_finalized q t₀.recent
      chain_same none = refl
      chain_same (some f) = refl

      go :
          (q : Option BlockRef)
          → AboveHead q t₀.recent
          → (k : Option ℕ) → Chain.find_rollback_index (with_finalized q t₀.recent) previous ≡ k
          → Handled (under q) (rollback_fork (beside q) previous) (handle_fork (under q) previous)
      go q above none e =
          let mine : find_rollback_index (current_chain q t₀.recent) previous ≡ none =
            find_rollback_index_same _ previous
            ∙ ap (λ c. Chain.find_rollback_index c previous) (chain_same q)
            ∙ e in
          rw (e, rollback_fork) (rw (mine, handle_fork) (handled_below q above))
      go q above (some k) e =
          let mine : find_rollback_index (current_chain q t₀.recent) previous ≡ some k =
            find_rollback_index_same _ previous
            ∙ ap (λ c. Chain.find_rollback_index c previous) (chain_same q)
            ∙ e in
          rw (e, rollback_fork)
            (rw (mine, handle_fork)
              (rw (chain_same q) (handled_to q k (get_elem? (with_finalized q t₀.recent) k))))

-- On a tracker whose recent blocks lie above its high watermark, `HandleFork` does what
-- `rollbackFork` does on the state with these blocks and that finalized head. Where that rolls back
-- to a block, so does the tracker, with the same blocks left and this one current. Where that fails,
-- the tracker reports failure, and forgets its recent blocks and its current one.
pub handle_fork-Handled :
    (t : Tracker) (previous : List BlockRef)
    → AboveHead t.watermark t.recent
    → Handled t (rollback_fork (beside t previous t.watermark) previous) (handle_fork t previous)
handle_fork-Handled t previous above = handled t previous t.watermark above
