-- ===== src/Fork/Restore.antt =====
-- What `rollbackFork` and `handleFork` leave behind.
use sqd_go.Base.{
  ℕ, zero, suc, ◌+◌, ◌<◌, ◌≡◌, refl, sym, subst, true, Option, none, some, List, [], ◌∷◌, ◌⊎◌, inl,
  inr, Bool-cases, Option-cases, arith, get_elem?, last?, length, take, length-take, last?-take,
  add-one,
}
use sqd_go.Chain.{BlockRef, rollback_scan, find_rollback_index, all_blocks_before}
use sqd_go.Chain.Order.{AboveHead, Above-take, Ascending-take}
use sqd_go.Fork.{
  ProcessorState, Result, ok, err, ForkError, unable_to_process, unable_without_finalized, head,
  with_finalized, rollback_to, rollback_fork, handle_outcome, handle_fork, max_rollback_heads,
}
use sqd_go.Fork.Invariant.{InWindow, IsValid}

-- The scan returns where it was, or an index of the chain.
scan_in_range :
    (cs fs : List BlockRef) (i : ℕ) (last : Option ℕ) (k : ℕ)
    → rollback_scan cs fs i last ≡ some k
    → (last ≡ some k) ⊎ (k < i + length cs)
unfolding rollback_scan
scan_in_range [] fs i last k e = inl e
scan_in_range (c ∷ cs) [] i last k e = inl e
scan_in_range (c ∷ cs) (f ∷ fs) i last k e = ground (
  arith,
  scan_in_range (c ∷ cs) fs i last k,
  scan_in_range cs (f ∷ fs) (i + 1) last k,
  scan_in_range cs fs (i + 1) (some i) k,
)

find_rollback_index-lt :
    (current fork : List BlockRef) (k : ℕ)
    → find_rollback_index current fork ≡ some k
    → k < length current
unfolding find_rollback_index
find_rollback_index-lt current fork k e = ground (arith, scan_in_range current fork 0 none k)

pub get_elem?-total :
    (bs : List BlockRef) (k : ℕ) → k < length bs → (e : BlockRef) × (get_elem? bs k ≡ some e)
get_elem?-total [] k h = absurd (omega arith)
get_elem?-total (b ∷ bs) zero h = (b, refl)
get_elem?-total (b ∷ bs) (suc k) h = get_elem?-total bs k (omega arith)

AboveHead-take :
    (finalized : Option BlockRef) (k : ℕ) (bs : List BlockRef)
    → AboveHead finalized bs
    → AboveHead finalized (take k bs)
AboveHead-take none k bs a = tt
AboveHead-take (some f) k bs a = Above-take f.number k bs a

-- The state after a rollback to `b`: the finalized head stays, the heads are the first `n` of the
-- old ones, and `b` is the new head.
pub record IsRestored (s : ProcessorState) (b : BlockRef) (s' : ProcessorState) : Type 0 where
  pub finalized_same : s'.finalized_head ≡ s.finalized_head
  pub kept : ℕ
  pub prefix : s'.unfinalized_heads ≡ take kept s.unfinalized_heads
  pub head_is : head s' ≡ some b

restored-IsValid :
    {s s' : ProcessorState} {b : BlockRef} → IsRestored s b s' → IsValid s → IsValid s'
restored-IsValid {s} {s'} r v = record {
  ascending = rw r.prefix (Ascending-take r.kept s.unfinalized_heads v.ascending);
  above =
      rw (r.prefix, r.finalized_same)
        (AboveHead-take s.finalized_head r.kept s.unfinalized_heads v.above);
  bounded = rw r.prefix (omega (arith, length-take r.kept s.unfinalized_heads, v.bounded));
}

-- What each way out of `rollbackFork` has done.
pub data Rolled (s : ProcessorState) (previous : List BlockRef)
    : Result BlockRef × ProcessorState → Type 0 where
  to_common :
      (k : ℕ) (b : BlockRef) (s' : ProcessorState)
      → find_rollback_index (with_finalized s.finalized_head s.unfinalized_heads) previous ≡ some k
      → get_elem? (with_finalized s.finalized_head s.unfinalized_heads) k ≡ some b
      → IsRestored s b s'
      → Rolled s previous (ok b, s')
  to_finalized :
      (f : BlockRef) (s' : ProcessorState)
      → find_rollback_index (with_finalized s.finalized_head s.unfinalized_heads) previous ≡ none
      → s.finalized_head ≡ some f
      → all_blocks_before previous f.number ≡ true
      → IsRestored s f s'
      → Rolled s previous (ok f, s')
  refused :
      (e : ForkError)
      → find_rollback_index (with_finalized s.finalized_head s.unfinalized_heads) previous ≡ none
      → Rolled s previous (err e, s)

head_of :
    (finalized : Option BlockRef) (heads : List BlockRef) {b : BlockRef}
    → last? heads ≡ some b
    → head (record { finalized_head = finalized; unfinalized_heads = heads }) ≡ some b
unfolding head
head_of finalized heads e = rw (e, head)

module _ (heads previous : List BlockRef) where
  abbrev without : ProcessorState
  without = record { finalized_head = none; unfinalized_heads = heads }

  Rolled-without :
      (o : Option ℕ)
      → find_rollback_index heads previous ≡ o
      → Rolled without previous (rollback_fork without previous)
  unfolding rollback_fork head
  Rolled-without none e = rw (e, rollback_fork) (refused unable_without_finalized e)
  Rolled-without (some k) e =
      let (b, at) = get_elem?-total heads k (find_rollback_index-lt heads previous k e) in
      rw (e, rollback_fork)
        (rw (at, rollback_to)
          (to_common k b _ e at (record {
            finalized_same = refl;
            kept = k + 1;
            prefix = refl;
            head_is = head_of none (take (k + 1) heads) (rw add-one (last?-take heads k at));
          })))

  module _ (f : BlockRef) where
    abbrev beside : ProcessorState
    beside = record { finalized_head = some f; unfinalized_heads = heads }

    finalized_only : IsRestored beside f (record beside { unfinalized_heads = [] })
    unfolding head
    finalized_only = record { finalized_same = refl; kept = 0; prefix = refl; head_is = refl }

    Rolled-beside :
        (o : Option ℕ)
        → find_rollback_index (f ∷ heads) previous ≡ o
        → Rolled beside previous (rollback_fork beside previous)
    unfolding rollback_fork head
    Rolled-beside none e =
        rw (e, rollback_fork)
          (elim (Bool-cases (all_blocks_before previous f.number)) [
            | inl old ↦ rw old (to_finalized f _ e refl old finalized_only)
            | inr new ↦ rw new (refused unable_to_process e)
          ])
    Rolled-beside (some zero) e = rw (e, rollback_fork) (to_common 0 f _ e refl finalized_only)
    Rolled-beside (some (suc k)) e =
        let (b, at) =
          get_elem?-total heads k
            (omega (arith, find_rollback_index-lt (f ∷ heads) previous (suc k) e)) in
        rw (e, rollback_fork)
          (rw (at, rollback_to)
            (rw add-one (
              to_common (suc k) b _ e at (record {
                finalized_same = refl;
                kept = suc k;
                prefix = refl;
                head_is = head_of (some f) (take (suc k) heads) (last?-take heads k at);
              }))))

-- `rollbackFork` has one of three outcomes. It rolls back to the block of the chain at the index
-- that `findRollbackIndex` gives. Or, where that is -1 and every block reported lies below the
-- finalized head, it rolls back to the finalized head. Or it fails, where that is -1, and leaves the
-- state as it was. A rollback keeps the finalized head and a prefix of the heads, and makes its
-- block the head.
pub rollback_fork-Rolled :
    (s : ProcessorState) (previous : List BlockRef) → Rolled s previous (rollback_fork s previous)
rollback_fork-Rolled s previous = elim (Option-cases s.finalized_head) [
  | inl e ↦
      subst (λ o. Rolled (at o) previous (rollback_fork (at o) previous)) (sym e)
        (Rolled-without s.unfinalized_heads previous _ refl)
  | inr (f, e) ↦
      subst (λ o. Rolled (at o) previous (rollback_fork (at o) previous)) (sym e)
        (Rolled-beside s.unfinalized_heads previous f _ refl)
]
  where
    at : Option BlockRef → ProcessorState
    at o = record { finalized_head = o; unfinalized_heads = s.unfinalized_heads }

Rolled-IsValid :
    (s : ProcessorState) (previous : List BlockRef) (r : Result BlockRef × ProcessorState)
    → Rolled s previous r
    → IsValid s
    → IsValid r.1
Rolled-IsValid s previous (ok b, t) (to_common k _ _ p q r) v = restored-IsValid r v
Rolled-IsValid s previous (ok b, t) (to_finalized _ _ p q a r) v = restored-IsValid r v
Rolled-IsValid s previous (err e, t) (refused _ p) v = v

handled-IsValid :
    (r : Result BlockRef × ProcessorState) → IsValid r.1 → IsValid (handle_outcome r).1
unfolding handle_outcome
handled-IsValid (ok b, s) v = v
handled-IsValid (err e, s) v = elim (Option-cases s.finalized_head) [
  | inl p ↦ rw p (record { ascending = tt; above = tt; bounded = omega arith })
  | inr (f, p) ↦ rw p (subst (λ o. InWindow max_rollback_heads o s.unfinalized_heads) p v)
]

-- A fork never breaks the invariant, whatever blocks are reported and whether or not it can be
-- resolved.
handle_fork-IsValid :
    (s : ProcessorState) (previous : List BlockRef)
    → IsValid s
    → IsValid (rollback_fork s previous).1 × IsValid (handle_fork s previous).1
unfolding handle_fork
handle_fork-IsValid s previous v =
    let w =
      Rolled-IsValid s previous (rollback_fork s previous) (rollback_fork-Rolled s previous) v in
    (w, handled-IsValid (rollback_fork s previous) w)

handled_error :
    (s : ProcessorState) (previous : List BlockRef) (r : Result BlockRef × ProcessorState)
    (e : ForkError)
    → Rolled s previous r
    → (handle_outcome r).0 ≡ some e
    → ((handle_outcome r).1 ≡ s) × ((f : BlockRef) × (s.finalized_head ≡ some f))
unfolding handle_outcome
handled_error s previous (ok b, t) e (to_common k _ _ p q r) h = cc
handled_error s previous (ok b, t) e (to_finalized _ _ p q a r) h = cc
handled_error s previous (err x, t) e (refused _ p) h = elim (Option-cases s.finalized_head) [
  | inl n ↦ absurd (cc (rw n at h))
  | inr (f, n) ↦ (rw n, (f, n))
]

-- If `handleFork` reports an error, then it has left the state as it was, and a block is finalized.
-- Without a finalized head it never fails.
pub handle_fork-error :
    (s : ProcessorState) (previous : List BlockRef) (e : ForkError)
    → (handle_fork s previous).0 ≡ some e
    → ((handle_fork s previous).1 ≡ s) × ((f : BlockRef) × (s.finalized_head ≡ some f))
unfolding handle_fork
handle_fork-error s previous e h =
    handled_error s previous (rollback_fork s previous) e (rollback_fork-Rolled s previous) h
