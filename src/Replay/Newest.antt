-- ===== src/Replay/Newest.antt =====
-- `HasBlocks`, which looks at the newest entry alone.
use sqd_go.Base.{
  ℕ, suc, ◌+◌, ◌-◌, ◌%◌, ◌≤◌, ◌<◌, ◌≡◌, refl, sym, ap, ◌∙◌, inl, inr, Bool-cases, List, [], ◌∷◌,
  ◌++◌, arith, ltb, leb, ◌==◌, length, subst,
}
use sqd_go.Replay.{Kinds, BlockEntry, ReplayBuffer, slot, has_blocks}
use sqd_go.Replay.Positions.{run, contents, run-snoc}
use sqd_go.Replay.Index.{From, from_cons}
use sqd_go.Replay.Contents.{IsValid}
use sqd_go.Replay.Finalize.{above}

module _ {K : Kinds} where
  -- Of ascending entries some are above a number where the last one is.
  last-above :
      (n bound : ℕ) (es : List (BlockEntry K)) (e : BlockEntry K)
      → From bound (es ++ (e ∷ []))
      → leb 1 (length (above n (es ++ (e ∷ [])))) ≡ ltb n e.number
  unfolding above
  last-above n bound [] e (from_cons _ _ l f) = ground arith
  last-above n bound (x ∷ es) e (from_cons _ _ l f) = elim (Bool-cases (ltb n x.number)) [
    | inl yes_ ↦ let later = last-number (x.number + 1) es e f in rw yes_ (ground arith)
    | inr no_ ↦ rw no_ (last-above n (x.number + 1) es e f)
  ]
    where
      last-number :
          (b : ℕ) (xs : List (BlockEntry K)) (y : BlockEntry K)
          → From b (xs ++ (y ∷ []))
          → b ≤ y.number
      last-number b [] y (from_cons _ _ g h) = g
      last-number b (z ∷ xs) y (from_cons _ _ g h) =
          omega (arith, last-number (z.number + 1) xs y h)

  abbrev start_of : ReplayBuffer K → ℕ
  start_of rb = rb.write_pos + rb.capacity - rb.count

  abbrev newest_entry : ReplayBuffer K → BlockEntry K
  newest_entry rb = slot rb.slots ((rb.write_pos + rb.capacity - 1) % rb.capacity)

  newest :
      (rb : ReplayBuffer K)
      → IsValid rb
      → 0 < rb.count
      → contents rb
        ≡ run rb.slots rb.capacity (start_of rb) (rb.count - 1) ++ (newest_entry rb ∷ [])
  newest rb v p =
      let before = run rb.slots rb.capacity (start_of rb) (rb.count - 1) in
      ap (run rb.slots rb.capacity (start_of rb)) {x = rb.count} {y = suc (rb.count - 1)}
        (omega arith)
      ∙ run-snoc rb.slots rb.capacity (start_of rb) (rb.count - 1)
      ∙ ap (λ t. before ++ (slot rb.slots (t % rb.capacity) ∷ []))
          {x = start_of rb + (rb.count - 1)} (omega (arith, v.within))

  -- On a valid buffer, `HasBlocks` says whether an entry is above the number.
  pub has_blocks-above :
      (rb : ReplayBuffer K) (n : ℕ)
      → IsValid rb
      → has_blocks rb n ≡ leb 1 (length (above n (contents rb)))
  unfolding has_blocks run above
  has_blocks-above rb n v = elim (Bool-cases (rb.count == 0)) [
    | inl yes_ ↦ let none_ : rb.count ≡ 0 = ground arith in rw (yes_, none_) refl
    | inr no_ ↦
        let split = newest rb v (ground arith) in
        rw (no_, split)
          (sym (
            last-above n 0 (run rb.slots rb.capacity (start_of rb) (rb.count - 1)) (newest_entry rb)
              (subst (From 0) split v.ascending)))
  ]
