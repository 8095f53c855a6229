-- ===== src/Replay/Forks.antt =====
-- The loop of `PruneAfter`: what it leaves in the slots.
use native.Mathlib.Nat.{add-mod_right}
use sqd_go.Base.{
  ℕ, zero, suc, ◌+◌, ◌-◌, ◌%◌, ◌≤◌, ◌<◌, ◌≡◌, refl, ap, subst, ◌∙◌, inl, inr, true, false,
  Bool-cases, List, [], ◌∷◌, arith, leb, if◌then◌else◌, set, length, length-set,
}
use sqd_go.Replay.{Kinds, BlockEntry, empty_entry, slot}
use sqd_go.Replay.Pruning.{after_loop}
use sqd_go.Replay.Positions.{mod-ne, run, slot-set_ne, run-set}
use sqd_go.Replay.Index.{From, from_nil, from_cons}

module _ {K : Kinds} where
  -- The entries up to a number.
  unfoldable pub up_to : ℕ → List (BlockEntry K) → List (BlockEntry K)
  up_to n [] = []
  up_to n (e ∷ es) = let rest = up_to n es in if leb e.number n then e ∷ rest else rest

  up_to-none :
      (b bound : ℕ) (es : List (BlockEntry K)) → From bound es → b < bound → up_to b es ≡ []
  unfolding up_to
  up_to-none b bound [] from_nil h = refl
  up_to-none b bound (_ ∷ _) (from_cons e es l f) h =
      let large : leb e.number b ≡ false = ground arith in
      rw large (up_to-none b (e.number + 1) es f (omega arith))

  -- What the loop leaves from position `t` on: the entries up to the bound at the front, and slots outside
  -- the run as they were.
  pub record Pruned (slots : List (BlockEntry K)) (c t n b : ℕ) (r : List (BlockEntry K) × ℕ)
      (count : ℕ) : Type 0 where
    pub sized : length r.0 ≡ length slots
    pub total : r.1 ≡ count + length (up_to b (run slots c t n))
    pub entries : run r.0 c t (length (up_to b (run slots c t n))) ≡ up_to b (run slots c t n)
    pub others : (j : ℕ) → n ≤ j → j < c → slot r.0 ((t + j) % c) ≡ slot slots ((t + j) % c)

  keep_step :
      (slots : List (BlockEntry K)) (c t n b : ℕ) (r : List (BlockEntry K) × ℕ) (count : ℕ)
      → n < c
      → leb (slot slots (t % c)).number b ≡ true
      → Pruned slots c (t + 1) n b r (count + 1)
      → Pruned slots c t (suc n) b r count
  unfolding run up_to
  keep_step slots c t n b r count h k p =
      let around : (t + 1 + (c - 1)) % c ≡ t % c =
        ap (λ q. q % c) {x = t + 1 + (c - 1)} {y = t + c} (omega arith) ∙ add-mod_right t c in
      let first : slot r.0 (t % c) ≡ slot slots (t % c) =
        subst (λ q. slot r.0 q ≡ slot slots q) around
          (p.others (c - 1) (omega arith) (omega arith)) in
      record {
        sized = p.sized;
        total = rw k (omega (arith, p.total));
        entries = rw k (rw (first, p.entries) refl);
        others = λ j l m.
            subst (λ q. slot r.0 (q % c) ≡ slot slots (q % c)) {x = t + 1 + (j - 1)} (omega arith)
              (p.others (j - 1) (omega arith) (omega arith));
      }

  clear_step :
      (slots : List (BlockEntry K)) (c t n b : ℕ) (r : List (BlockEntry K) × ℕ) (count : ℕ)
      → n < c
      → leb (slot slots (t % c)).number b ≡ false
      → run (set slots (t % c) empty_entry) c (t + 1) n ≡ run slots c (t + 1) n
      → up_to b (run slots c (t + 1) n) ≡ []
      → Pruned (set slots (t % c) empty_entry) c (t + 1) n b r count
      → Pruned slots c t (suc n) b r count
  unfolding run up_to
  clear_step slots c t n b r count h k same none_ p = record {
    sized = p.sized ∙ length-set slots (t % c) empty_entry;
    total = p.total ∙ rw (same, k) refl;
    entries = rw (k, none_) refl;
    others = λ j l m.
        subst (λ q. slot r.0 (q % c) ≡ slot slots (q % c)) {x = t + 1 + (j - 1)} (omega arith)
          (p.others (j - 1) (omega arith) (omega arith)
            ∙ slot-set_ne slots (t % c) _ empty_entry (λ e.
              mod-ne c t j (omega arith) m
                (e ∙ ap (λ q. q % c) {x = t + 1 + (j - 1)} (omega arith))));
  }

  pub after_loop-Pruned :
      (b c s n i : ℕ) (slots : List (BlockEntry K)) (count bound : ℕ)
      → n ≤ c
      → From bound (run slots c (s + i) n)
      → Pruned slots c (s + i) n b (after_loop b c s n i slots count) count
  unfolding after_loop run up_to
  after_loop-Pruned b c s zero i slots count bound h f = record {
    sized = refl;
    total = omega arith;
    entries = refl;
    others = λ j p q. refl;
  }
  after_loop-Pruned b c s (suc n) i slots count bound h (from_cons _ _ l f) =
      let next : s + (i + 1) ≡ s + i + 1 = omega arith in
      let p = (s + i) % c in
      let same : run (set slots p empty_entry) c (s + i + 1) n ≡ run slots c (s + i + 1) n =
        run-set slots c (s + i + 1) n p empty_entry (λ j q e.
          mod-ne c (s + i) (j + 1) (omega arith) (omega arith)
            (e ∙ ap (λ t. t % c) {x = s + i + 1 + j} (omega arith))) in
      elim (Bool-cases (leb (slot slots p).number b)) [
        | inl yes_ ↦ keep_step slots c (s + i) n b _ count (omega arith) yes_ (
            rw yes_ (
              subst
                (λ t.
                  Pruned slots c t n b (after_loop b c s n (i + 1) slots (count + 1)) (count + 1))
                next
                (after_loop-Pruned b c s n (i + 1) slots (count + 1) ((slot slots p).number + 1)
                  (omega arith) (rw next f))))
        | inr no_ ↦
            clear_step slots c (s + i) n b _ count (omega arith) no_ same
              (up_to-none b ((slot slots p).number + 1) _ f (ground arith))
              (rw no_ (
                subst
                  (λ t.
                    Pruned (set slots p empty_entry) c t n b
                      (after_loop b c s n (i + 1) (set slots p empty_entry) count) count)
                  next
                  (after_loop-Pruned b c s n (i + 1) (set slots p empty_entry) count
                    ((slot slots p).number + 1) (omega arith) (rw (next, same) f))))
      ]
