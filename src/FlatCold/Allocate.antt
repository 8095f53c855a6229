-- ===== src/FlatCold/Allocate.antt =====
-- `allocSlot` ends: the hand comes to a free slot, or back to one that it has cleared.
use native.Mathlib.Nat.{mod-lt, mod-eq_of_lt, mod-add-mod, add-mod_right}
use sqd_go.Base.{
  ℕ, suc, ◌+◌, ◌-◌, ◌%◌, ◌^◌, ◌≤◌, ◌<◌, ◌≡◌, refl, sym, ap, ◌∙◌, subst, if◌then◌else◌, none, true,
  false, inl, inr, Bool-cases, leb, leb→le, ◌==◌, arith,
}
use sqd_go.ColdFilter.{word}
use sqd_go.FlatCold.{FlatCold, write}
use sqd_go.FlatCold.Calls.{alloc_loop, alloc_slot, pass_over}
use sqd_go.FlatCold.Counts.{count, count-free, count-full}
use sqd_go.FlatCold.Linked.{IsLinked, IsValid}
use sqd_go.FlatCold.Unlink.{write_self}
use sqd_go.FlatCold.Sweep.{Freed, sweep_room, sweep_full, Freed-later}

-- From every position the hand reaches every slot within a round.
reach : (h c i : ℕ) → i < c → (d : ℕ) × (d < c) × ((h + d) % c ≡ i)
reach h c i lt =
    let r : h % c < c = mod-lt h (omega arith) in
    elim (Bool-cases (leb (h % c) i)) [
      | inl yes_ ↦
          let le : h % c ≤ i = leb→le _ _ yes_ in
          (
            i - h % c,
            omega arith,
            sym (mod-add-mod h c (i - h % c))
                ∙ ap (λ k. k % c) {x = h % c + (i - h % c)} {y = i} (omega arith)
                ∙ mod-eq_of_lt lt,
          )
      | inr no_ ↦
          let gt : i < h % c = ground arith in
          (
            c - h % c + i,
            omega arith,
            sym (mod-add-mod h c (c - h % c + i))
                ∙ ap (λ k. k % c) {x = h % c + (c - h % c + i)} {y = i + c} (omega arith)
                ∙ add-mod_right i c
                ∙ mod-eq_of_lt lt,
          )
    ]

full_round :
    (f : FlatCold)
    → f.hand + f.capacity < 2 ^ 64
    → 0 < f.capacity
    → (word (f.hand + 1) + (f.capacity - 1)) % f.capacity ≡ f.hand % f.capacity
full_round f small positive =
    let here : word (f.hand + 1) ≡ f.hand + 1 = mod-eq_of_lt (omega arith) in
    ap (λ k. k % f.capacity) {x = word (f.hand + 1) + (f.capacity - 1)} {y = f.hand + f.capacity}
      (omega (arith, here))
    ∙ add-mod_right f.hand f.capacity

allocate_full :
    (f : FlatCold)
    → IsLinked f
    → f.size ≡ count f.in_use f.capacity
    → 0 < f.capacity
    → f.hand + f.capacity < 2 ^ 64
    → f.capacity ≤ f.size
    → Freed f true (suc f.capacity) (alloc_loop (suc f.capacity) true f)
unfolding alloc_loop
allocate_full f k counted positive small full = elim (Bool-cases (f.ref (f.hand % f.capacity))) [
  | inr no_ ↦
      Freed-later f true f.hand f.ref 1 (suc f.capacity) (omega arith)
        (sweep_full 0 (suc f.capacity) f k counted positive (omega arith) (omega arith)
          (ap (λ i. f.ref (i % f.capacity)) {x = f.hand + 0} (omega arith) ∙ no_))
        refl
  | inl warm ↦
      let r = write f.ref (f.hand % f.capacity) false in
      let at = (word (f.hand + 1) + (f.capacity - 1)) % f.capacity in
      let used : f.in_use (f.hand % f.capacity) ≡ true =
        count-full f.in_use f.capacity (omega (arith, counted)) (f.hand % f.capacity)
          (mod-lt f.hand positive) in
      let on : word (f.hand + 1) ≡ f.hand + 1 = mod-eq_of_lt (omega arith) in
      Freed-later f true (word (f.hand + 1)) r (suc (f.capacity - 1)) (suc f.capacity)
        (omega (arith, on))
        (sweep_full (f.capacity - 1) f.capacity (pass_over true f) k counted positive
          (omega (arith, on)) (omega arith)
          (ap r (full_round f small positive) ∙ write_self f.ref (f.hand % f.capacity) false))
        (rw (used, warm))
]

-- On a valid store whose hand does not wrap around within a round, the sweep of `allocSlot` ends after
-- at most a round and a slot. Its slot is free and out of the index, every other slot is in use as
-- before, and the slot was in use only where the store was full.
pub alloc_slot-Freed :
    (f : FlatCold)
    → IsValid f
    → f.hand + f.capacity < 2 ^ 64
    → Freed f (leb f.capacity f.size) (suc f.capacity) (alloc_slot f)
unfolding alloc_slot
alloc_slot-Freed f (k, s) small =
    let made : (f.capacity == 0) ≡ false = ground (arith, s.nonempty) in
    elim (Bool-cases (leb f.capacity f.size)) [
      | inl full ↦
          subst
            (λ b.
              Freed f b (suc f.capacity)
                (if f.capacity == 0 then none else alloc_loop (suc f.capacity) b f))
            (sym full)
            (subst
              (λ b.
                Freed f true (suc f.capacity)
                  (if b then none else alloc_loop (suc f.capacity) true f))
              (sym made)
              (allocate_full f k s.counted s.nonempty small (leb→le f.capacity f.size full)))
      | inr room ↦
          let (i, lt, free) = count-free f.in_use f.capacity (ground (arith, s.counted)) in
          let (d, below, at) = reach f.hand f.capacity i lt in
          subst
            (λ b.
              Freed f b (suc f.capacity)
                (if f.capacity == 0 then none else alloc_loop (suc f.capacity) b f))
            (sym room)
            (subst
              (λ b.
                Freed f false (suc f.capacity)
                  (if b then none else alloc_loop (suc f.capacity) false f))
              (sym made)
              (Freed-later f false f.hand f.ref (suc d) (suc f.capacity) (omega arith)
                (sweep_room d (suc f.capacity) f k s.counted s.nonempty (omega arith) (omega arith)
                  (ap f.in_use at ∙ free))
                refl))
    ]
