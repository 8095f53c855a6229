-- ===== src/Fork/Invariant.antt =====
-- The invariant of `processorState`: the heads ascend, lie above the finalized head, and are
-- bounded.
use sqd_go.Base.{
  ℕ, ◌-◌, ◌≤◌, ◌≡◌, refl, ap, ◌∙◌, false, Option, none, some, List, [], ◌∷◌, ◌++◌, inl, inr,
  Bool-cases, Option-cases, arith, last?, ltb, leb, length, drop, length-drop, length-set_last,
  set_last, ltb→lt, last?-eq_none, ◌==◌,
}
use sqd_go.Chain.{BlockRef, Head, effective_finalized_head, max_block_ref}
use sqd_go.Chain.Order.{
  Above, AboveHead, Ascending, Above-append, Above-drop, Above-set_last, Ascending-append,
  Ascending-drop, Ascending-set_last, Above-mono,
}
use sqd_go.Fork.{
  ProcessorState, cap_heads, append_after, append_head, append_unfinalized, prune_heads,
  prune_finalized, append_all, apply_batch, below_finalized, max_rollback_heads,
}

-- The list of heads beside the finalized one.
pub record InWindow (limit : ℕ) (finalized : Option BlockRef) (heads : List BlockRef) : Type 0 where
  pub ascending : Ascending heads
  pub above : AboveHead finalized heads
  pub bounded : length heads ≤ limit

abbrev pub IsValid : ProcessorState → Type 0
IsValid s = InWindow max_rollback_heads s.finalized_head s.unfinalized_heads

pub AboveHead-drop :
    (finalized : Option BlockRef) (k : ℕ) (bs : List BlockRef)
    → AboveHead finalized bs
    → AboveHead finalized (drop k bs)
AboveHead-drop none k bs a = tt
AboveHead-drop (some f) k bs a = Above-drop f.number k bs a

pub AboveHead-append :
    (finalized : Option BlockRef) (bs : List BlockRef) (b : BlockRef)
    → AboveHead finalized bs
    → below_finalized finalized b ≡ false
    → AboveHead finalized (bs ++ (b ∷ []))
AboveHead-append none bs b a h = tt
AboveHead-append (some f) bs b a h = Above-append bs b a (ground arith)

pub AboveHead-set_last :
    (finalized : Option BlockRef) (bs : List BlockRef) (b : BlockRef)
    → AboveHead finalized bs
    → below_finalized finalized b ≡ false
    → AboveHead finalized (set_last bs b)
AboveHead-set_last none bs b a h = tt
AboveHead-set_last (some f) bs b a h = Above-set_last bs b a (ground arith)

cap_heads-length : (limit : ℕ) (bs : List BlockRef) → length (cap_heads limit bs) ≤ limit
unfolding cap_heads
cap_heads-length limit bs = ground (arith, length-drop (length bs - limit) bs)

cap_heads-InWindow :
    (limit : ℕ) (finalized : Option BlockRef) (bs : List BlockRef)
    → Ascending bs
    → AboveHead finalized bs
    → InWindow limit finalized (cap_heads limit bs)
unfolding cap_heads
cap_heads-InWindow limit finalized bs up above = elim (Bool-cases (ltb limit (length bs))) [
  | inl over ↦ rw over (record {
    ascending = Ascending-drop _ bs up;
    above = AboveHead-drop finalized _ bs above;
    bounded = omega (arith, length-drop (length bs - limit) bs, ltb→lt _ _ over);
  })
  | inr fits ↦ rw fits (record { ascending = up; above = above; bounded = ground arith })
]

append_after-InWindow :
    (limit : ℕ) (finalized : Option BlockRef) (bs : List BlockRef) (b : BlockRef)
    (o : Option BlockRef)
    → last? bs ≡ o
    → below_finalized finalized b ≡ false
    → InWindow limit finalized bs
    → InWindow limit finalized (append_after limit bs o b)
unfolding append_after
append_after-InWindow limit finalized bs b none e h w =
    cap_heads-InWindow limit finalized (bs ++ (b ∷ [])) (rw (last?-eq_none bs e) (tt, tt))
      (AboveHead-append finalized bs b w.above h)
append_after-InWindow limit finalized bs b (some last) e h w =
    elim (Bool-cases (ltb b.number last.number)) [
      | inl older ↦ rw older w
      | inr newer ↦ rw newer (elim (Bool-cases (b.number == last.number)) [
        | inl same ↦ rw same (record {
          ascending = Ascending-set_last bs b w.ascending e (ground arith);
          above = AboveHead-set_last finalized bs b w.above h;
          bounded = omega (arith, length-set_last bs b, w.bounded);
        })
        | inr other ↦ rw other (
            cap_heads-InWindow limit finalized (bs ++ (b ∷ []))
              (Ascending-append bs b w.ascending e (ground arith))
              (AboveHead-append finalized bs b w.above h))
      ])
    ]

-- One appended block keeps the heads ascending, above the finalized head, and within the limit.
append_head-InWindow :
    (limit : ℕ) (finalized : Option BlockRef) (bs : List BlockRef) (b : BlockRef)
    → InWindow limit finalized bs
    → InWindow limit finalized (append_head limit finalized bs b)
unfolding append_head
append_head-InWindow limit finalized bs b w = elim (Bool-cases (below_finalized finalized b)) [
  | inl old ↦ rw old w
  | inr new ↦ rw new (append_after-InWindow limit finalized bs b (last? bs) refl new w)
]

prune_heads-Above : (n : ℕ) (bs : List BlockRef) → Ascending bs → Above n (prune_heads n bs)
unfolding prune_heads
prune_heads-Above n [] up = tt
prune_heads-Above n (b ∷ bs) up =
    ground (arith, prune_heads-Above n bs up.1, Above-mono {m = n} {n = b.number} bs)

prune_heads-Ascending : (n : ℕ) (bs : List BlockRef) → Ascending bs → Ascending (prune_heads n bs)
unfolding prune_heads
prune_heads-Ascending n [] up = tt
prune_heads-Ascending n (b ∷ bs) up = ground (arith, prune_heads-Ascending n bs up.1)

length-prune_heads : (n : ℕ) (bs : List BlockRef) → length (prune_heads n bs) ≤ length bs
unfolding prune_heads
length-prune_heads n [] = omega arith
length-prune_heads n (b ∷ bs) = ground (arith, length-prune_heads n bs)

-- Pruning needs no more than an ascending list: it brings the heads above the finalized one.
prune_finalized-IsValid :
    (s : ProcessorState)
    → Ascending s.unfinalized_heads
    → length s.unfinalized_heads ≤ max_rollback_heads
    → IsValid (prune_finalized s)
unfolding prune_finalized
prune_finalized-IsValid s up fits = elim (Option-cases s.finalized_head) [
  | inl e ↦ rw e (record { ascending = up; above = tt; bounded = fits })
  | inr (f, e) ↦ rw e (record {
    ascending = prune_heads-Ascending f.number s.unfinalized_heads up;
    above = prune_heads-Above f.number s.unfinalized_heads up;
    bounded = omega (arith, length-prune_heads f.number s.unfinalized_heads);
  })
]

append_all-IsValid :
    (s : ProcessorState) (bs : List BlockRef) → IsValid s → IsValid (append_all s bs)
unfolding append_all append_unfinalized
append_all-IsValid s [] v = v
append_all-IsValid s (b ∷ bs) v =
    append_all-IsValid (append_unfinalized s b) bs
      (append_head-InWindow max_rollback_heads s.finalized_head s.unfinalized_heads b v)

-- Applying a batch keeps the invariant, whatever blocks the batch holds, in whatever order, and
-- whatever its header says.
pub apply_batch-IsValid :
    (s : ProcessorState) (header : Head) (blocks : List BlockRef)
    → IsValid s
    → IsValid (apply_batch s header blocks)
unfolding apply_batch
apply_batch-IsValid s header blocks v =
    append_all-IsValid _ blocks (prune_finalized-IsValid _ v.ascending v.bounded)

finalized-append_all :
    (s : ProcessorState) (bs : List BlockRef) → (append_all s bs).finalized_head ≡ s.finalized_head
unfolding append_all append_unfinalized
finalized-append_all s [] = refl
finalized-append_all s (b ∷ bs) = finalized-append_all (append_unfinalized s b) bs

finalized-prune_finalized :
    (s : ProcessorState) → (prune_finalized s).finalized_head ≡ s.finalized_head
unfolding prune_finalized
finalized-prune_finalized s = ground arith

finalized-apply_batch :
    (s : ProcessorState) (header : Head) (blocks : List BlockRef)
    → (apply_batch s header blocks).finalized_head
      ≡ max_block_ref (effective_finalized_head header.finalized blocks) s.finalized_head
unfolding apply_batch
finalized-apply_batch s header blocks = finalized-append_all _ blocks ∙ finalized-prune_finalized _

-- Once a block is finalized, after any batch there is a finalized head, and not a lower one.
pub apply_batch-finalized_grows :
    (s : ProcessorState) (header : Head) (blocks : List BlockRef) (f : BlockRef)
    → s.finalized_head ≡ some f
    → (g : BlockRef) × ((apply_batch s header blocks).finalized_head ≡ some g)
      × (f.number ≤ g.number)
unfolding max_block_ref
apply_batch-finalized_grows s header blocks f e =
    let (g, p, q) = larger (effective_finalized_head header.finalized blocks) in
    (g, finalized-apply_batch s header blocks ∙ ap (max_block_ref _) e ∙ p, q)
  where
    larger :
        (a : Option BlockRef)
        → (g : BlockRef) × (max_block_ref a (some f) ≡ some g) × (f.number ≤ g.number)
    larger none = (f, refl, omega arith)
    larger (some a) = elim (Bool-cases (leb f.number a.number)) [
      | inl le ↦ (a, ground arith, ground arith)
      | inr lt ↦ (f, ground arith, omega arith)
    ]
