-- ===== src/Replay/Positions.antt =====
-- The entries of the buffer as a list, the oldest first, and reads and writes of slots by position.
use native.Mathlib.Nat.{mod-lt, mod-eq_of_lt, mod-add-mod, mod-eq-sub-mod}
use sqd_go.Base.{
  ℕ, zero, suc, ◌+◌, ◌-◌, ◌%◌, ◌≤◌, ◌<◌, ◌≡◌, ◌≢◌, refl, sym, ap, ◌∙◌, inl, inr, Bool-cases, List,
  [], ◌∷◌, ◌++◌, arith, ltb, set, length,
}
use sqd_go.Replay.{Kinds, BlockEntry, ReplayBuffer, slot}

-- Positions less than a round apart are different.
pub mod-ne : (c a d : ℕ) → 0 < d → d < c → a % c ≢ (a + d) % c
mod-ne c a d p q e =
    let r : a % c < c = mod-lt a (omega arith) in
    let step : (a % c + d) % c ≡ a % c = mod-add-mod a c d ∙ sym e in
    elim (Bool-cases (ltb (a % c + d) c)) [
      | inl lt ↦
          let small : a % c + d < c = ground arith in
          absurd (omega (arith, step, mod-eq_of_lt small))
      | inr ge ↦
          let large : c ≤ a % c + d = ground arith in
          let less : a % c + d - c < c = omega arith in
          absurd (omega (arith, step, mod-eq-sub-mod large, mod-eq_of_lt less))
    ]

module _ {K : Kinds} where
  -- The entries at the `n` positions from `s` on, around the buffer.
  unfoldable pub run : List (BlockEntry K) → ℕ → ℕ → ℕ → List (BlockEntry K)
  run slots c s zero = []
  run slots c s (suc n) = slot slots (s % c) ∷ run slots c (s + 1) n

  -- The entries of the buffer, the oldest first.
  abbrev pub contents : ReplayBuffer K → List (BlockEntry K)
  contents rb = run rb.slots rb.capacity (rb.write_pos + rb.capacity - rb.count) rb.count

  pub slot-set_self :
      (slots : List (BlockEntry K)) (p : ℕ) (e : BlockEntry K)
      → p < length slots
      → slot (set slots p e) p ≡ e
  slot-set_self [] p e h = absurd (omega arith)
  slot-set_self (x ∷ xs) zero e h = refl
  slot-set_self (x ∷ xs) (suc p) e h = slot-set_self xs p e (omega arith)

  pub slot-set_ne :
      (slots : List (BlockEntry K)) (p q : ℕ) (e : BlockEntry K)
      → p ≢ q
      → slot (set slots p e) q ≡ slot slots q
  slot-set_ne [] p q e h = refl
  slot-set_ne (x ∷ xs) zero zero e h = absurd (h refl)
  slot-set_ne (x ∷ xs) zero (suc q) e h = refl
  slot-set_ne (x ∷ xs) (suc p) zero e h = refl
  slot-set_ne (x ∷ xs) (suc p) (suc q) e h = slot-set_ne xs p q e (λ k. h (ap suc k))

  -- A write outside the run does not change it.
  pub run-set :
      (slots : List (BlockEntry K)) (c s n p : ℕ) (e : BlockEntry K)
      → ((i : ℕ) → i < n → p ≢ (s + i) % c)
      → run (set slots p e) c s n ≡ run slots c s n
  unfolding run
  run-set slots c s zero p e h = refl
  run-set slots c s (suc n) p e h =
      let head : p ≢ s % c =
        λ k. h 0 (omega arith) (k ∙ ap (λ t. t % c) {x = s} {y = s + 0} (omega arith)) in
      let rest = run-set slots c (s + 1) n p e (λ i l k.
        h (suc i) (omega arith)
          (k ∙ ap (λ t. t % c) {x = s + 1 + i} {y = s + suc i} (omega arith))) in
      rw (slot-set_ne slots p (s % c) e head, rest) refl

  -- The run depends on its start by the remainder alone.
  pub run-mod :
      (slots : List (BlockEntry K)) (c s t n : ℕ)
      → s % c ≡ t % c
      → run slots c s n ≡ run slots c t n
  unfolding run
  run-mod slots c s t zero h = refl
  run-mod slots c s t (suc n) h =
      let next : (s + 1) % c ≡ (t + 1) % c =
        sym (mod-add-mod s c 1) ∙ ap (λ k. (k + 1) % c) h ∙ mod-add-mod t c 1 in
      rw (h, run-mod slots c (s + 1) (t + 1) n next) refl

  pub run-snoc :
      (slots : List (BlockEntry K)) (c s n : ℕ)
      → run slots c s (suc n) ≡ run slots c s n ++ (slot slots ((s + n) % c) ∷ [])
  unfolding run
  run-snoc slots c s zero = ap (λ t. slot slots (t % c) ∷ []) {x = s} {y = s + 0} (omega arith)
  run-snoc slots c s (suc n) = ap (◌∷◌ (slot slots (s % c))) (
      run-snoc slots c (s + 1) n
      ∙ ap (λ t. run slots c (s + 1) n ++ (slot slots (t % c) ∷ [])) {x = s + 1 + n} {y = s + suc n}
          (omega arith))

  pub length-run : (slots : List (BlockEntry K)) (c s n : ℕ) → length (run slots c s n) ≡ n
  unfolding run
  length-run slots c s zero = refl
  length-run slots c s (suc n) = ap suc (length-run slots c (s + 1) n)
