-- ===== src/Ring/Batch.antt =====
-- `Init`, `ApplyBatch` and `Head` of the ring, and how a batch compares with `processorState`.
use sqd_go.Base.{
  ℕ, ◌+◌, ◌≤◌, ◌<◌, ◌≡◌, refl, subst, true, false, Option, none, some, List, [], ◌∷◌, ◌++◌, inl,
  inr, arith, length, last?, Bool-cases, ◌==◌, ==_iff, ltb, leb, if◌then◌else◌, ◌>>=◌,
  length-append, length-set_last,
}
use sqd_go.Chain.{BlockRef, Head, effective_finalized_head, max_block_ref}
use sqd_go.Chain.Order.{Above, AboveHead}
use sqd_go.Fork.{
  ProcessorState, append_head, append_after, cap_heads, below_finalized, prune_heads,
  prune_finalized, append_unfinalized, append_all, max_rollback_heads,
}
use sqd_go.Fork
use sqd_go.Ring.{
  Ring, capacity, push_all, raises, set_finalized_head, apply_batch, init, cleared, head,
  head_block,
}
use sqd_go.Ring.Window.{Represents, Window-last}
use sqd_go.Ring.Push.{Yields, push_refines, Represents-nil}
use sqd_go.Ring.Prune.{after_finalized, set_finalized_head_lem}

-- Blocks appended in turn.
pub append_heads : ℕ → Option BlockRef → List BlockRef → List BlockRef → List BlockRef
append_heads limit finalized xs [] = xs
append_heads limit finalized xs (b ∷ bs) =
    append_heads limit finalized (append_head limit finalized xs b) bs

push_all-Yields :
    (r : Ring) (bs xs : List BlockRef)
    → Represents r xs
    → Yields (push_all r bs) r.finalized_head (append_heads capacity r.finalized_head xs bs)
unfolding push_all append_heads
push_all-Yields r [] xs v = record { ring = r; returned = refl; holds = v; finalized_is = refl }
push_all-Yields r (b ∷ bs) xs v =
    let p = push_refines r b xs v in
    let q = push_all-Yields p.ring bs (append_head capacity r.finalized_head xs b) p.holds in
    rw p.returned (
      subst
        (λ o.
          Yields (push_all p.ring bs) o
            (append_heads capacity o (append_head capacity r.finalized_head xs b) bs))
        p.finalized_is q)

-- The finalized head and the heads after the header of a batch.
abbrev pub raised : Option BlockRef → Option BlockRef → Option BlockRef
raised old none = old
raised old (some e) = if raises old e then some e else old

abbrev pub pruned_by : Option BlockRef → Option BlockRef → List BlockRef → List BlockRef
pruned_by old none xs = xs
pruned_by old (some e) xs = after_finalized old e xs

set_finalized-Yields :
    (r : Ring) (o : Option BlockRef) (xs : List BlockRef)
    → Represents r xs
    → Yields (set_finalized_head r o) (raised r.finalized_head o) (pruned_by r.finalized_head o xs)
unfolding set_finalized_head
set_finalized-Yields r none xs v = record {
  ring = r;
  returned = refl;
  holds = v;
  finalized_is = refl;
}
set_finalized-Yields r (some e) xs v = set_finalized_head_lem r e xs v

-- On a ring that holds `xs`, `ApplyBatch` does not panic. Its finalized head is the effective one of
-- the batch if that is higher. The heads that this covers go, and then the blocks of the batch are
-- appended in turn.
pub apply_batch_lem :
    (r : Ring) (header : Head) (blocks xs : List BlockRef)
    → Represents r xs
    → let effective = effective_finalized_head header.finalized blocks in
      let finalized = raised r.finalized_head effective in
      Yields
        (apply_batch r header blocks)
        finalized
        (append_heads capacity finalized (pruned_by r.finalized_head effective xs) blocks)
unfolding apply_batch
apply_batch_lem r header blocks xs v =
    let p = set_finalized-Yields r (effective_finalized_head header.finalized blocks) xs v in
    let q = push_all-Yields p.ring blocks _ p.holds in
    rw p.returned (
      subst
        (λ o. Yields (push_all p.ring blocks) o (
          append_heads capacity o
            (pruned_by r.finalized_head (effective_finalized_head header.finalized blocks) xs)
            blocks))
        p.finalized_is q)

-- `Init` does not panic on any ring whose array has its 1024 places, and leaves the given heads,
-- appended in turn to nothing.
pub init_lem :
    (r : Ring) (finalized : Option BlockRef) (heads : List BlockRef)
    → length r.buffer ≡ 1024
    → Yields (init r finalized heads) finalized (append_heads capacity finalized [] heads)
unfolding init
init_lem r finalized heads size =
    push_all-Yields (record (cleared r) { finalized_head = finalized }) heads []
      (Represents-nil _ size (omega arith) refl)

abbrev pub newest_or : Option BlockRef → Option BlockRef → Option BlockRef
newest_or (some b) finalized = some b
newest_or none finalized = finalized

pub head-of_list :
    (r : Ring) (xs : List BlockRef)
    → Represents r xs
    → head r ≡ some (newest_or (last? xs) r.finalized_head)
unfolding head
head-of_list r [] v = rw ((==_iff r.count 0).1 v.counted)
head-of_list r (x ∷ xs) v =
    let more : (r.count == 0) ≡ false = ground (arith, v.counted) in
    rw (more, v.newest (omega arith), head_block)
      (rw (Window-last r.buffer r.tail (x ∷ xs) (omega arith) v.window) (newest x xs))
  where
    newest :
        (y : BlockRef) (ys : List BlockRef)
        → (last? (y ∷ ys) >>= λ b. some (some b))
          ≡ some (newest_or (last? (y ∷ ys)) r.finalized_head)
    newest y [] = refl
    newest y (z ∷ ys) = newest z ys

-- Below its limit the list only grows, by one block at most.
append_head-short :
    (finalized : Option BlockRef) (xs : List BlockRef) (b : BlockRef)
    → length xs < capacity
    → (append_head max_rollback_heads finalized xs b ≡ append_head capacity finalized xs b)
      × (length (append_head capacity finalized xs b) ≤ length xs + 1)
unfolding append_head append_after cap_heads
append_head-short finalized xs b fits = elim (Bool-cases (below_finalized finalized b)) [
  | inl old ↦ rw old (refl, omega arith)
  | inr new ↦ rw new (by_last (last? xs))
]
  where
    len : length (xs ++ (b ∷ [])) ≡ length xs + 1
    len = length-append xs (b ∷ [])

    by_last :
        (o : Option BlockRef)
        → (append_after max_rollback_heads xs o b ≡ append_after capacity xs o b)
          × (length (append_after capacity xs o b) ≤ length xs + 1)
    by_last none = ground (arith, len)
    by_last (some last) = ground (arith, len, length-set_last xs b)

append_all-heads :
    (finalized : Option BlockRef) (xs bs : List BlockRef)
    → length xs + length bs ≤ capacity
    → append_all (record { finalized_head = finalized; unfinalized_heads = xs }) bs ≡ record {
      finalized_head = finalized;
      unfinalized_heads = append_heads capacity finalized xs bs;
    }
unfolding append_all append_heads append_unfinalized
append_all-heads finalized xs [] fits = refl
append_all-heads finalized xs (b ∷ bs) fits =
    let (same, short) = append_head-short finalized xs b (omega arith) in
    rw same (append_all-heads finalized (append_head capacity finalized xs b) bs (omega arith))

prune_heads-none : (n : ℕ) (bs : List BlockRef) → Above n bs → prune_heads n bs ≡ bs
unfolding prune_heads
prune_heads-none n [] a = refl
prune_heads-none n (b ∷ bs) a = ground arith

-- The header does not name another block at the number of the finalized head.
abbrev pub NoTie : Option BlockRef → Option BlockRef → Type 0
NoTie none o = Unit {0}
NoTie (some f) none = Unit {0}
NoTie (some f) (some e) = e.number ≡ f.number → e ≡ f

-- The ring tests before it prunes, the list prunes always.
header_same :
    (old effective : Option BlockRef) (xs : List BlockRef)
    → AboveHead old xs
    → NoTie old effective
    → prune_finalized
        (record { finalized_head = max_block_ref effective old; unfinalized_heads = xs })
      ≡ record {
        finalized_head = raised old effective;
        unfinalized_heads = pruned_by old effective xs;
      }
unfolding prune_finalized max_block_ref
header_same none none xs a tie = refl
header_same none (some e) xs a tie = refl
header_same (some f) none xs a tie = rw (prune_heads-none f.number xs a)
header_same (some f) (some e) xs a tie = elim (Bool-cases (ltb f.number e.number)) [
  | inl up ↦ let flip : leb f.number e.number ≡ true = ground arith in rw (up, flip)
  | inr down ↦ elim (Bool-cases (leb f.number e.number)) [
    | inl level ↦
        let same : e ≡ f = tie (ground arith) in
        rw (down, level, same, prune_heads-none f.number xs a)
    | inr below ↦ rw (down, below, prune_heads-none f.number xs a)
  ]
]

-- If the heads `xs` of a ring and the batch together fit 1024 places, the heads lie above the
-- finalized head, and the batch does not finalize another block at the number of the finalized
-- head, then `ApplyBatch` on the ring leaves the finalized head and the heads that
-- `processorState.applyBatch` leaves.
pub apply_batch_agrees :
    (r : Ring) (header : Head) (blocks xs : List BlockRef)
    → Represents r xs
    → AboveHead r.finalized_head xs
    → length xs + length blocks ≤ capacity
    → NoTie r.finalized_head (effective_finalized_head header.finalized blocks)
    → let s =
        Fork.apply_batch
          (record { finalized_head = r.finalized_head; unfinalized_heads = xs })
          header
          blocks in
      Yields (apply_batch r header blocks) s.finalized_head s.unfinalized_heads
unfolding Fork.apply_batch prune_heads
apply_batch_agrees r header blocks xs v above fits tie =
    let effective = effective_finalized_head header.finalized blocks in
    rw
      (
        header_same r.finalized_head effective xs above tie,
        append_all-heads (raised r.finalized_head effective)
            (pruned_by r.finalized_head effective xs) blocks (omega (arith, shorter effective)),
      )
      (apply_batch_lem r header blocks xs v)
  where
    prune_shorter : (n : ℕ) (bs : List BlockRef) → length (prune_heads n bs) ≤ length bs
    prune_shorter n [] = omega arith
    prune_shorter n (b ∷ bs) = ground (arith, prune_shorter n bs)

    shorter : (o : Option BlockRef) → length (pruned_by r.finalized_head o xs) ≤ length xs
    shorter none = omega arith
    shorter (some e) = ground (arith, prune_shorter e.number xs)
