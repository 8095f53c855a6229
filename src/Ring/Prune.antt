-- ===== src/Ring/Prune.antt =====
-- `Prune` and `SetFinalizedHead` drop the blocks that are finalized.
use sqd_go.Base.{
  ℕ, suc, ◌+◌, ◌%◌, ◌≤◌, ◌<◌, ◌≡◌, refl, ap, ◌∙◌, true, false, Option, some, List, [], ◌∷◌, inl,
  inr, arith, get_elem?, length, Bool-cases, ◌==◌, ltb, leb, if◌then◌else◌,
}
use sqd_go.Chain.{BlockRef}
use sqd_go.Fork.{prune_heads}
use sqd_go.Ring.{Ring, next, prune_loop, settle, prune, raises, set_finalized_head}
use sqd_go.Ring.Window.{Window, Represents, next-eq, Window-tail, Window-head}
use sqd_go.Ring.Push.{Yields, Represents-nil}

-- The loop stops at a tail from which the buffer holds the pruned list, up to the same end.
record Pruned (buffer : List BlockRef) (n t : ℕ) (xs : List BlockRef) : Type 0 where
  tail : ℕ
  returned : prune_loop buffer n t (length xs) ≡ some (tail, length (prune_heads n xs))
  tail_in : tail < 1024
  window : Window buffer tail (prune_heads n xs)
  same_end : (tail + length (prune_heads n xs)) % 1024 ≡ (t + length xs) % 1024
  shorter : length (prune_heads n xs) ≤ length xs

prune_loop_step :
    (buffer : List BlockRef) (n t c : ℕ) (x : BlockRef)
    → get_elem? buffer t ≡ some x
    → prune_loop buffer n t (suc c)
      ≡ (if ltb n x.number then some (t, suc c) else prune_loop buffer n (next t) c)
unfolding prune_loop
prune_loop_step buffer n t c x e = rw (e, prune_loop)

prune_loop-Pruned :
    (buffer : List BlockRef) (n t : ℕ) (xs : List BlockRef)
    → t < 1024
    → Window buffer t xs
    → Pruned buffer n t xs
unfolding prune_loop prune_heads
prune_loop-Pruned buffer n t [] h w = record {
  tail = t;
  returned = refl;
  tail_in = h;
  window = w;
  same_end = refl;
  shorter = omega arith;
}
prune_loop-Pruned buffer n t (x ∷ xs) h w =
    let at : get_elem? buffer t ≡ some x = Window-head buffer t x xs h w in
    elim (Bool-cases (leb x.number n)) [
      | inl old ↦
          let flip : ltb n x.number ≡ false = ground arith in
          let p =
            prune_loop-Pruned buffer n ((t + 1) % 1024) xs (omega arith)
              (Window-tail buffer t x xs w) in
          record {
            tail = p.tail;
            returned =
                prune_loop_step buffer n t (length xs) x at
                ∙ rw (flip, old, next-eq t h) p.returned;
            tail_in = p.tail_in;
            window = rw old p.window;
            same_end = rw old (p.same_end ∙ omega arith);
            shorter = rw old (omega (arith, p.shorter));
          }
      | inr new ↦
          let flip : ltb n x.number ≡ true = ground arith in
          record {
            tail = t;
            returned = prune_loop_step buffer n t (length xs) x at ∙ rw (flip, new);
            tail_in = h;
            window = rw new w;
            same_end = rw new;
            shorter = rw new (omega arith);
          }
    ]

settle-Represents :
    (r : Ring) (xs ys : List BlockRef) (t : ℕ)
    → Represents r xs
    → t < 1024
    → Window r.buffer t ys
    → (t + length ys) % 1024 ≡ (r.tail + length xs) % 1024
    → length ys ≤ length xs
    → Represents (settle r (t, length ys)) ys
unfolding settle
settle-Represents r xs [] t v h w e le = Represents-nil _ v.size (omega arith) refl
settle-Represents r xs (y ∷ ys) t v h w e le =
    let more : (length (y ∷ ys) == 0) ≡ false = ground arith in
    rw more (record {
      size = v.size;
      tail_in = h;
      counted = refl;
      bounded = omega (arith, v.bounded);
      newest = λ lt. v.newest (omega arith) ∙ ap some (omega (arith, v.bounded, v.tail_in));
      window = w;
    })

prune-Yields :
    (r : Ring) (n : ℕ) (xs : List BlockRef)
    → Represents r xs
    → Yields (prune r n) r.finalized_head (prune_heads n xs)
unfolding prune
prune-Yields r n xs v =
    let p = prune_loop-Pruned r.buffer n r.tail xs v.tail_in v.window in
    rw (v.counted, p.returned)
      (record {
        ring = _;
        returned = refl;
        holds =
            settle-Represents r xs (prune_heads n xs) p.tail v p.tail_in p.window p.same_end
              p.shorter;
        finalized_is = finalized-settle r p.tail (length (prune_heads n xs));
      })
  where
    finalized-settle : (q : Ring) (t c : ℕ) → (settle q (t, c)).finalized_head ≡ q.finalized_head
    finalized-settle q t c = ground arith

-- The heads that stay when the finalized head is set.
abbrev pub after_finalized : Option BlockRef → BlockRef → List BlockRef → List BlockRef
after_finalized old ref xs = if raises old ref then prune_heads ref.number xs else xs

-- Setting the finalized head of a ring that holds `xs` does not panic. A block above the old
-- finalized head becomes the finalized head, and exactly the leading blocks that it covers go; any
-- other block changes nothing.
pub set_finalized_head_lem :
    (r : Ring) (ref : BlockRef) (xs : List BlockRef)
    → Represents r xs
    → Yields
        (set_finalized_head r (some ref))
        (if raises r.finalized_head ref then some ref else r.finalized_head)
        (after_finalized r.finalized_head ref xs)
unfolding set_finalized_head
set_finalized_head_lem r ref xs v = elim (Bool-cases (raises r.finalized_head ref)) [
  | inl up ↦ rw up (prune-Yields (record r { finalized_head = some ref }) ref.number xs (moved v))
  | inr down ↦ rw down (record { ring = r; returned = refl; holds = v; finalized_is = refl })
]
  where
    moved : Represents r xs → Represents (record r { finalized_head = some ref }) xs
    moved w = record {
      size = w.size;
      tail_in = w.tail_in;
      counted = w.counted;
      bounded = w.bounded;
      newest = w.newest;
      window = w.window;
    }
