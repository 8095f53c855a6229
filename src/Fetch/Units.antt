-- ===== src/Fetch/Units.antt =====
-- No block of the range is lost between the cursor, the gaps and the units that workers hold.
use sqd_go.Base.{
  ℕ, zero, suc, ◌+◌, ◌-◌, ◌^◌, min, ◌≤◌, ◌<◌, ◌≡◌, ◌⊎◌, refl, subst, Bool, ◌&&◌, ◌||◌, List, [],
  ◌∷◌, ◌++◌, inl, inr, Bool-cases, arith, ltb, leb, ◌==◌,
}
use sqd_go.Fetch.{
  BlockRange, Prefetcher, current_gap_span, at_least_one, gap_units, insert_gap, sort_gaps,
  enqueue_gaps, Claim, stopped, waiting, unit, stride, take_stride, no_gaps, claim_fresh, claim_gap,
  get_work, window_limit, word, pred_word,
}

abbrev Inside : BlockRange → ℕ → Type 0
Inside r n = (r.from ≤ n) × (n ≤ r.to)

-- One of the units has the block.
abbrev InGaps : List BlockRange → ℕ → Type 0
InGaps [] n = ⊥
InGaps (g ∷ gs) n = Inside g n ⊎ InGaps gs n

-- The block is still to be claimed: it lies between the cursor and the end, or in a gap.
abbrev pub Pending : Prefetcher → ℕ → Type 0
Pending p n = ((p.next_block ≤ n) × (n ≤ p.end_block)) ⊎ InGaps p.gaps n

-- The unit that a round of `getWork` hands out has the block.
abbrev pub Claimed : Claim → ℕ → Type 0
Claimed stopped n = ⊥
Claimed waiting n = ⊥
Claimed (unit r) n = Inside r n

stride-bounds : (p : Prefetcher) → (1 ≤ stride p) × (stride p ≤ 131072)
unfolding stride current_gap_span
stride-bounds p = ground arith

fresh-Pending :
    (p : Prefetcher) (window n : ℕ)
    → p.end_block < 2 ^ 63
    → Pending p n
    → Claimed (claim_fresh p window).0 n ⊎ Pending (claim_fresh p window).1 n
unfolding claim_fresh
fresh-Pending p window n small v =
    elim (Bool-cases (leb p.next_block p.end_block && leb p.next_block window)) [
      | inl free ↦ rw free (taken v)
      | inr full ↦
          elim (Bool-cases
            (ltb p.end_block p.next_block && no_gaps p.gaps && (p.active_workers == 0))) [
              | inl done ↦ rw (full, done) (inr v)
              | inr more ↦ rw (full, more) (inr v)
            ]
    ]
  where
    taken :
        Pending p n
        → Claimed (take_stride p (min (pred_word (p.next_block + stride p)) p.end_block)).0 n
          ⊎ Pending (take_stride p (min (pred_word (p.next_block + stride p)) p.end_block)).1 n
    taken (inr g) = inr (inr g)
    taken (inl (from, to)) =
        elim (Bool-cases (leb n (min (pred_word (p.next_block + stride p)) p.end_block))) [
          | inl here ↦ inl (from, ground arith)
          | inr later ↦ inr (inl (ground arith, to))
        ]

gap-Pending :
    (p : Prefetcher) (window n : ℕ) (gs : List BlockRange)
    → p.gaps ≡ gs
    → p.end_block < 2 ^ 63
    → Pending p n
    → Claimed (claim_gap p window gs).0 n ⊎ Pending (claim_gap p window gs).1 n
unfolding claim_gap
gap-Pending p window n [] e small v = fresh-Pending p window n small v
gap-Pending p window n (g ∷ gs) e small v = elim (Bool-cases (leb g.from window)) [
  | inl near ↦
      rw near (taken (subst (λ l. ((p.next_block ≤ n) × (n ≤ p.end_block)) ⊎ InGaps l n) e v))
  | inr far ↦ rw far (fresh-Pending p window n small v)
]
  where
    taken :
        ((p.next_block ≤ n) × (n ≤ p.end_block)) ⊎ (Inside g n ⊎ InGaps gs n)
        → Inside g n ⊎ (((p.next_block ≤ n) × (n ≤ p.end_block)) ⊎ InGaps gs n)
    taken (inl ahead) = inr (inl ahead)
    taken (inr (inl here)) = inl here
    taken (inr (inr there)) = inr (inr there)

-- A round of `getWork` loses no block: for a range that ends below 2 ^ 63, each block that was still to
-- be claimed is in the unit handed out or is still to be claimed.
pub get_work-Pending :
    (p : Prefetcher) (cancelled : Bool) (n : ℕ)
    → p.end_block < 2 ^ 63
    → Pending p n
    → Claimed (get_work p cancelled).0 n ⊎ Pending (get_work p cancelled).1 n
unfolding get_work
get_work-Pending p cancelled n small v = elim (Bool-cases (cancelled || p.stop_claim)) [
  | inl stop ↦ rw stop (inr v)
  | inr go ↦ elim (Bool-cases (p.beast_mode && ltb 0 p.active_workers)) [
    | inl wait ↦ rw (go, wait) (inr v)
    | inr claim ↦
        rw (go, claim) (gap-Pending p (word (p.next_emit + window_limit p)) n p.gaps refl small v)
  ]
]

insert_gap-InGaps :
    (g : BlockRange) (gs : List BlockRange) (n : ℕ)
    → Inside g n ⊎ InGaps gs n
    → InGaps (insert_gap g gs) n
unfolding insert_gap
insert_gap-InGaps g [] n h = h
insert_gap-InGaps g (r ∷ rs) n h = elim (Bool-cases (leb g.from r.from)) [
  | inl le ↦ rw le h
  | inr gt ↦ rw gt (past (λ k. insert_gap-InGaps g rs n k) h)
]
  where
    past :
        (Inside g n ⊎ InGaps rs n → InGaps (insert_gap g rs) n)
        → Inside g n ⊎ (Inside r n ⊎ InGaps rs n)
        → Inside r n ⊎ InGaps (insert_gap g rs) n
    past step (inl own) = inr (step (inl own))
    past step (inr (inl here)) = inl here
    past step (inr (inr there)) = inr (step (inr there))

sort_gaps-InGaps : (gs : List BlockRange) (n : ℕ) → InGaps gs n → InGaps (sort_gaps gs) n
unfolding sort_gaps
sort_gaps-InGaps [] n h = h
sort_gaps-InGaps (g ∷ gs) n (inl here) = insert_gap-InGaps g (sort_gaps gs) n (inl here)
sort_gaps-InGaps (g ∷ gs) n (inr there) =
    insert_gap-InGaps g (sort_gaps gs) n (inr (sort_gaps-InGaps gs n there))

append-InGaps : (gs us : List BlockRange) (n : ℕ) → InGaps gs n ⊎ InGaps us n → InGaps (gs ++ us) n
append-InGaps [] us n (inl h) = absurd h
append-InGaps [] us n (inr h) = h
append-InGaps (g ∷ gs) us n (inl (inl here)) = inl here
append-InGaps (g ∷ gs) us n (inl (inr there)) = inr (append-InGaps gs us n (inl there))
append-InGaps (g ∷ gs) us n (inr h) = inr (append-InGaps gs us n (inr h))

-- The units follow one another from `cur` to `to`, none longer than `span`.
abbrev Tiles : ℕ → ℕ → ℕ → List BlockRange → Type 0
Tiles span cur to [] = to < cur
Tiles span cur to (r ∷ rs) =
    (r.from ≡ cur)
    × ((cur ≤ r.to) × ((r.to ≤ to) × ((r.to < cur + span) × Tiles span (r.to + 1) to rs)))

-- The units of `enqueueGaps` follow one another without a gap or an overlap from the first block to the
-- last, each of at least one block and of at most `span`, for a range that ends below 2 ^ 63 and a span
-- from 1 to the largest. A round for each block is enough.
gap_units-Tiles :
    (fuel span cur to : ℕ)
    → 1 ≤ span
    → span ≤ 131072
    → to < 2 ^ 63
    → to + 1 - cur ≤ fuel
    → cur ≤ to + 1
    → Tiles span cur to (gap_units fuel span cur to)
unfolding gap_units
gap_units-Tiles zero span cur to lo hi small enough start = omega arith
gap_units-Tiles (suc fuel) span cur to lo hi small enough start = elim (Bool-cases (leb cur to)) [
  | inr over ↦ rw over (ground arith)
  | inl more ↦
      let le : cur ≤ to = ground arith in
      let last : pred_word (cur + span) ≡ cur + span - 1 = omega arith in
      let next : word (min (cur + span - 1) to + 1) ≡ min (cur + span - 1) to + 1 = ground arith in
      rw (more, last, next)
        (
          refl,
          (
            ground arith,
            (
              ground arith,
              (
                ground arith,
                gap_units-Tiles fuel span (min (cur + span - 1) to + 1) to lo hi small
                    (ground arith) (ground arith),
              ),
            ),
          ),
        )
]

Tiles-InGaps :
    (span cur to n : ℕ) (us : List BlockRange)
    → Tiles span cur to us
    → cur ≤ n
    → n ≤ to
    → InGaps us n
Tiles-InGaps span cur to n [] tiles lo hi = absurd (omega arith)
Tiles-InGaps span cur to n (r ∷ rs) (e, (_, (_, (_, rest)))) lo hi =
    elim (Bool-cases (leb n r.to)) [
      | inl here ↦ inl (omega arith, ground arith)
      | inr later ↦ inr (Tiles-InGaps span (r.to + 1) to n rs rest (ground arith) hi)
    ]

-- `enqueueGaps` loses no block either: for a range that ends below 2 ^ 63, what was still to be claimed
-- stays so, and every block of the range is to be claimed again.
enqueue_gaps-Pending :
    (p : Prefetcher) (from to n : ℕ)
    → to < 2 ^ 63
    → Pending p n ⊎ ((from ≤ n) × (n ≤ to))
    → Pending (enqueue_gaps p from to) n
unfolding enqueue_gaps current_gap_span
enqueue_gaps-Pending p from to n small (inl (inl ahead)) = inl ahead
enqueue_gaps-Pending p from to n small (inl (inr old)) =
    inr (sort_gaps-InGaps _ n (append-InGaps p.gaps _ n (inl old)))
enqueue_gaps-Pending p from to n small (inr (lo, hi)) =
    let span = at_least_one (current_gap_span p) in
    let tiles : Tiles span from to (gap_units (to + 1 - from) span from to) =
      gap_units-Tiles (to + 1 - from) span from to (ground arith) (ground arith) small (omega arith)
        (omega arith) in
    inr (
      sort_gaps-InGaps _ n
        (append-InGaps p.gaps _ n (inr (Tiles-InGaps span from to n _ tiles lo hi))))
