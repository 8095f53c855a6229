-- ===== src/Chain/Finalized.antt =====
-- `effectiveFinalizedHead`: which block of a batch counts as finalized.
use sqd_go.Base.{
  ℕ, zero, suc, ◌+◌, ◌≤◌, ◌<◌, ◌≡◌, refl, ap, ◌∙◌, none, some, List, [], ◌∷◌, ◌⊎◌, inl, inr,
  Bool-cases, arith, get_elem?, last?, ltb, leb, length, last?-get_elem?,
}
use sqd_go.Chain.{BlockRef, first_unfinalized, effective_at, effective_finalized_head}
use sqd_go.Chain.Order.{Holds, Ascending, Ascending-get_elem?, Holds-get_elem?}

-- The index at which the search stops: all blocks below it are at most `n`, and the one there is
-- not.
record Stops (n : ℕ) (bs : List BlockRef) (m : ℕ) : Type 0 where
  block : BlockRef
  found : get_elem? bs m ≡ some block
  over : n < block.number
  below : (j : ℕ) (d : BlockRef) → get_elem? bs j ≡ some d → j < m → d.number ≤ n

abbrev AtMost : ℕ → List BlockRef → Type 0
AtMost n bs = (j : ℕ) (d : BlockRef) → get_elem? bs j ≡ some d → d.number ≤ n

Stops-suc :
    (n : ℕ) (b : BlockRef) (bs : List BlockRef) (m : ℕ)
    → b.number ≤ n
    → Stops n bs m
    → Stops n (b ∷ bs) (suc m)
Stops-suc n b bs m le s = record { block = s.block; found = s.found; over = s.over; below = below }
  where
    below : (j : ℕ) (d : BlockRef) → get_elem? (b ∷ bs) j ≡ some d → j < suc m → d.number ≤ n
    below zero d e lt = ground arith
    below (suc j) d e lt = s.below j d e (omega arith)

AtMost-suc :
    (n : ℕ) (b : BlockRef) (bs : List BlockRef) → b.number ≤ n → AtMost n bs → AtMost n (b ∷ bs)
AtMost-suc n b bs le a zero d e = ground arith
AtMost-suc n b bs le a (suc j) d e = a j d e

search_view :
    (n : ℕ) (bs : List BlockRef) (i : ℕ)
    → ((first_unfinalized n bs i ≡ none) × AtMost n bs)
      ⊎ ((m : ℕ) × (first_unfinalized n bs i ≡ some (i + m)) × Stops n bs m)
unfolding first_unfinalized
search_view n [] i = inl (refl, λ j d e. cc)
search_view n (b ∷ bs) i = elim (Bool-cases (ltb n b.number)) [
  | inl over ↦ inr (
    0,
    rw over (ap some (omega arith)),
    record {
      block = b;
      found = refl;
      over = ground arith;
      below = λ j d e lt. absurd (omega arith);
    },
  )
  | inr le ↦
      let le' : b.number ≤ n = ground arith in
      elim (search_view n bs (i + 1)) [
        | inl (e, a) ↦ inl (rw le e, AtMost-suc n b bs le' a)
        | inr (m, e, s) ↦ inr (suc m, rw le (e ∙ ap some (omega arith)), Stops-suc n b bs m le' s)
      ]
]

-- `e` is the newest block that both the header `h` and the batch warrant as finalized.
record IsEffective (h : BlockRef) (blocks : List BlockRef) (e : BlockRef) : Type 0 where
  pub known : (e ≡ h) ⊎ Holds blocks e
  pub bounded : e.number ≤ h.number
  pub newest :
      (j : ℕ) (d : BlockRef)
      → get_elem? blocks j ≡ some d
      → d.number ≤ h.number
      → d.number ≤ e.number

get_elem?-total :
    (bs : List BlockRef) (k : ℕ) → k < length bs → (e : BlockRef) × (get_elem? bs k ≡ some e)
get_elem?-total [] k h = absurd (omega arith)
get_elem?-total (b ∷ bs) zero h = (b, refl)
get_elem?-total (b ∷ bs) (suc k) h = get_elem?-total bs k (omega arith)

get_elem?-lt : (bs : List BlockRef) (k : ℕ) {e : BlockRef} → get_elem? bs k ≡ some e → k < length bs
get_elem?-lt [] k h = cc
get_elem?-lt (b ∷ bs) zero h = omega arith
get_elem?-lt (b ∷ bs) (suc k) h = omega (arith, get_elem?-lt bs k h)

module _ (h b : BlockRef) (bs : List BlockRef) (up : Ascending (b ∷ bs)) where
  IsEffective-last :
      AtMost h.number (b ∷ bs)
      → (e : BlockRef) × (last? (b ∷ bs) ≡ some e) × IsEffective h (b ∷ bs) e
  IsEffective-last a =
      let (e, at) = get_elem?-total (b ∷ bs) (length bs) (omega arith) in
      (
        e,
        last?-get_elem? (b ∷ bs) ∙ ap (get_elem? (b ∷ bs)) (omega arith) ∙ at,
        record {
          known = inr (Holds-get_elem? (b ∷ bs) _ at);
          bounded = a _ e at;
          newest = λ j d p le.
              Ascending-get_elem? (b ∷ bs) j (length bs) up p at
                (omega (arith, get_elem?-lt (b ∷ bs) j p));
        },
      )

  IsEffective-stop :
      (m : ℕ)
      → Stops h.number (b ∷ bs) m
      → (e : BlockRef) × (effective_at (some m) h (b ∷ bs) ≡ some e) × IsEffective h (b ∷ bs) e
  unfolding effective_at
  IsEffective-stop zero s =
      (h, refl, record { known = inl refl; bounded = omega arith; newest = λ j d p le. le })
  IsEffective-stop (suc m) s =
      let (e, at) =
        get_elem?-total (b ∷ bs) m (omega (arith, get_elem?-lt (b ∷ bs) (suc m) s.found)) in
      (
        e,
        at,
        record {
          known = inr (Holds-get_elem? (b ∷ bs) m at);
          bounded = s.below m e at (omega arith);
          newest = λ j d p le. elim (Bool-cases (leb j m)) [
            | inl q ↦ Ascending-get_elem? (b ∷ bs) j m up p at (ground arith)
            | inr q ↦ absurd (
                omega (
                  arith,
                  Ascending-get_elem? (b ∷ bs) (suc m) j up s.found p (ground arith),
                  s.over,
                ))
          ];
        },
      )

-- For a batch in ascending order with a finalized header, the effective finalized head exists, is the
-- header's block or one of the batch, is not above the header, and no block of the batch that is at
-- or below the header is above it.
effective_finalized_head-IsEffective :
    (h : BlockRef) (blocks : List BlockRef)
    → Ascending blocks
    → (e : BlockRef) × (effective_finalized_head (some h) blocks ≡ some e) × IsEffective h blocks e
unfolding effective_finalized_head
effective_finalized_head-IsEffective h [] up =
    (h, refl, record { known = inl refl; bounded = omega arith; newest = λ j d p le. le })
effective_finalized_head-IsEffective h (b ∷ bs) up = elim (search_view h.number (b ∷ bs) 0) [
  | inl (none_over, a) ↦ let (e, at, v) = IsEffective-last h b bs up a in (e, rw none_over at, v)
  | inr (m, stop, s) ↦
      let (e, at, v) = IsEffective-stop h b bs up m s in
      (e, rw stop (ap (λ k. effective_at (some k) h (b ∷ bs)) (omega arith) ∙ at), v)
]
