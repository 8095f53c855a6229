-- ===== src/ColdFilter/Members.antt =====
-- The filters have no false negatives: a key that was added is reported from then on.
use native.Mathlib.Nat.{pow-suc}
use sqd_go.Base.{
  ℕ, zero, suc, ◌+◌, ◌*◌, ◌/◌, ◌^◌, ◌≤◌, ◌<◌, ◌≡◌, refl, sym, ap, ◌∙◌, bit_and, bit_and-le, Bool,
  true, false, not, Option, some, List, [], ◌∷◌, inl, inr, Bool-cases, Option-cases, arith,
  get_elem?, set, length, length-set, get_elem?-set_self, get_elem?-set_ne, ◌==◌, ==_iff, ltb,
  ◌>>=◌, if◌then◌else◌, replicate, length-replicate,
}
use sqd_go.ColdFilter.{
  Block, empty_block, BloomFilter, SplitBloom, neg_hash, mark_loop, check_loop, add, may_contain,
  split_salts, split_mark, split_check, split_add, split_may_contain, word, count_loop,
  split_block_count, new_split_bloom,
}
use sqd_go.ColdFilter.Marks.{
  Grows, mark_loop-Grows, check_loop-Grows, mark-check, split_mark-Grows, split_check-Grows,
  split_mark-check,
}

-- The mask leads into the blocks.
abbrev pub IsSized : List Block → ℕ → Type 0
IsSized blocks mask = mask < length blocks

block-total : (bs : List Block) (k : ℕ) → k < length bs → (e : Block) × (get_elem? bs k ≡ some e)
block-total [] k h = absurd (omega arith)
block-total (b ∷ bs) zero h = (b, refl)
block-total (b ∷ bs) (suc k) h = block-total bs k (omega arith)

-- Replacing a block by a grown one lets every block grow.
set-Grows :
    (bs : List Block) (at : ℕ) (blk blk' : Block)
    → get_elem? bs at ≡ some blk
    → at < length bs
    → Grows blk blk'
    → (i : ℕ) (c : Block) → get_elem? bs i ≡ some c
    → (c' : Block) × (get_elem? (set bs at blk') i ≡ some c') × Grows c c'
set-Grows bs at blk blk' e lt grows i c here = elim (Bool-cases (at == i)) [
  | inl same ↦
      let same' : at ≡ i = (==_iff at i).0 same in
      let one : blk ≡ c = cc (ap (get_elem? bs) same', e, here) in
      (
        blk',
        ap (get_elem? (set bs at blk')) (sym same') ∙ get_elem?-set_self bs at blk' lt,
        λ w b h. grows w b (ap (λ (d : Block). d w b) one ∙ h),
      )
  | inr other ↦ (c, get_elem?-set_ne bs blk' (λ p. cc ((==_iff at i).1 p)) ∙ here, λ w b h. h)
]

-- On a filter whose mask leads into its blocks, `add` does not panic and keeps that. It makes the key
-- reported, and every key that was reported stays so.
add-may_contain :
    (f : BloomFilter) (key : List ℕ)
    → IsSized f.blocks f.block_mask
    → (f' : BloomFilter) × (add f key ≡ some f')
      × IsSized f'.blocks f'.block_mask
      × (may_contain f' key ≡ some true)
      × ((other : List ℕ) → may_contain f other ≡ some true → may_contain f' other ≡ some true)
unfolding add may_contain
add-may_contain f key v =
    let h = (neg_hash key).0 in
    let g = (neg_hash key).1 in
    let at = bit_and h f.block_mask in
    let lt : at < length f.blocks = omega (arith, bit_and-le h f.block_mask) in
    let (blk, e) = block-total f.blocks at lt in
    let new_block = mark_loop h g 0 f.k blk in
    let f' : BloomFilter = record f { blocks = set f.blocks at new_block } in
    let own : get_elem? (set f.blocks at new_block) at ≡ some new_block =
      get_elem?-set_self f.blocks at new_block lt in
    (
      f',
      rw e,
      omega (arith, length-set f.blocks at new_block),
      rw (own, mark-check h g 0 f.k blk),
      λ other there. kept at blk new_block e lt (mark_loop-Grows h g 0 f.k blk) other there,
    )
  where
    kept :
        (at : ℕ) (blk blk' : Block)
        → get_elem? f.blocks at ≡ some blk
        → at < length f.blocks
        → Grows blk blk'
        → (other : List ℕ) → may_contain f other ≡ some true
        → may_contain (record f { blocks = set f.blocks at blk' }) other ≡ some true
    kept at blk blk' e lt grows other there =
        elim (Option-cases (get_elem? f.blocks (bit_and (neg_hash other).0 f.block_mask))) [
          | inl out ↦ cc (rw out at there)
          | inr (c, here) ↦
              let (c', now, up) = set-Grows f.blocks at blk blk' e lt grows _ c here in
              let found : some (check_loop (neg_hash other).0 (neg_hash other).1 0 f.k c)
                  ≡ some true =
                rw here at there in
              rw now (
                ap some
                  (check_loop-Grows (neg_hash other).0 (neg_hash other).1 0 f.k c c' up (cc found)))
        ]

-- On a split filter whose mask leads into its blocks, `add` does not panic and keeps that. It makes the
-- key reported, and every key that was reported stays so.
pub split_add-may_contain :
    (f : SplitBloom) (key : List ℕ)
    → IsSized f.blocks f.block_mask
    → (f' : SplitBloom) × (split_add f key ≡ some f')
      × IsSized f'.blocks f'.block_mask
      × (split_may_contain f' key ≡ some true)
      × ((other : List ℕ)
          → split_may_contain f other ≡ some true
          → split_may_contain f' other ≡ some true)
unfolding split_add split_may_contain
split_add-may_contain f key v =
    let h = (neg_hash key).0 in
    let at = bit_and h f.block_mask in
    let lt : at < length f.blocks = omega (arith, bit_and-le h f.block_mask) in
    let (blk, e) = block-total f.blocks at lt in
    let new_block = split_mark h split_salts 0 blk in
    let f' : SplitBloom = record f { blocks = set f.blocks at new_block; any_add = true } in
    let own : get_elem? (set f.blocks at new_block) at ≡ some new_block =
      get_elem?-set_self f.blocks at new_block lt in
    (
      f',
      rw e,
      omega (arith, length-set f.blocks at new_block),
      rw (own, split_mark-check h split_salts 0 blk),
      λ other there.
          kept at blk new_block e lt (split_mark-Grows h split_salts 0 blk) other
            (any f.any_add _ there),
    )
  where
    any :
        (b : Bool) (o : Option Bool) → (if not b then some false else o) ≡ some true → o ≡ some true
    any true o e = e
    any false o e = cc

    kept :
        (at : ℕ) (blk blk' : Block)
        → get_elem? f.blocks at ≡ some blk
        → at < length f.blocks
        → Grows blk blk'
        → (other : List ℕ)
        → (get_elem? f.blocks (bit_and (neg_hash other).0 f.block_mask) >>= λ c.
            some (split_check (neg_hash other).0 split_salts 0 c false))
          ≡ some true
        → (get_elem? (set f.blocks at blk') (bit_and (neg_hash other).0 f.block_mask) >>= λ c.
            some (split_check (neg_hash other).0 split_salts 0 c false))
          ≡ some true
    kept at blk blk' e lt grows other there =
        elim (Option-cases (get_elem? f.blocks (bit_and (neg_hash other).0 f.block_mask))) [
          | inl out ↦ cc (rw out at there)
          | inr (c, here) ↦
              let (c', now, up) = set-Grows f.blocks at blk blk' e lt grows _ c here in
              let found : some (split_check (neg_hash other).0 split_salts 0 c false) ≡ some true =
                rw here at there in
              rw now
                (ap some (split_check-Grows (neg_hash other).0 split_salts 0 c c' up (cc found)))
        ]

-- How far the doubling goes: from `n`, with fuel for `fuel` rounds.
count_loop-reaches :
    (fuel n nb : ℕ)
    → 64 ≤ n
    → nb ≤ n * 2 ^ fuel
    → nb ≤ 2 ^ 55
    → (nb ≤ count_loop fuel n nb) × (64 ≤ count_loop fuel n nb)
unfolding count_loop
count_loop-reaches zero n nb low reach small = (omega arith, low)
count_loop-reaches (suc fuel) n nb low reach small = elim (Bool-cases (ltb n nb)) [
  | inr done ↦ rw done (ground arith, low)
  | inl more ↦
      let twice : word (n * 2) ≡ n * 2 = ground arith in
      let wide : nb ≤ n * 2 * 2 ^ fuel = omega (arith, ap (λ (t : ℕ). n * t) (pow-suc 2 fuel)) in
      rw (more, twice) (count_loop-reaches fuel (n * 2) nb (omega arith) wide small)
]

-- A new split filter for a uint64 budget of bits has at least 64 blocks, at least the budget in bits up
-- to one block, a mask that leads into its blocks, and reports no key.
new_split_bloom_lem :
    (bit_budget : ℕ) (atomic_ops : Bool)
    → bit_budget < 2 ^ 64
    → let f = new_split_bloom bit_budget atomic_ops in
      (64 ≤ length f.blocks)
      × (bit_budget < (length f.blocks + 1) * 512)
      × IsSized f.blocks f.block_mask
      × ((key : List ℕ) → split_may_contain f key ≡ some false)
unfolding new_split_bloom split_block_count split_may_contain
new_split_bloom_lem bit_budget atomic_ops small =
    let (over, low) =
      count_loop-reaches 64 64 (bit_budget / 512) (omega arith) (omega arith) (omega arith) in
    let len : length (replicate (count_loop 64 64 (bit_budget / 512)) empty_block)
        ≡ count_loop 64 64 (bit_budget / 512) =
      length-replicate _ empty_block in
    (omega arith, omega arith, omega arith, λ key. refl)
