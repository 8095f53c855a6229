-- ===== src/FlatCold/Sweep.antt =====
-- The CLOCK sweep of `allocSlot` ends within one round and a slot.
use native.Mathlib.Nat.{mod-lt, mod-le, mod-eq_of_lt}
use sqd_go.Base.{
  ℕ, zero, suc, ◌+◌, ◌-◌, ◌%◌, ◌^◌, ◌≤◌, ◌<◌, ◌≡◌, ◌≢◌, refl, sym, ap, ◌∙◌, Bool, true, false, inl,
  inr, Bool-cases, ◌==◌, arith, Option, some,
}
use sqd_go.ColdFilter.{word}
use sqd_go.FlatCold.{FlatCold, write}
use sqd_go.FlatCold.Calls.{alloc_loop, advance, pass_over}
use sqd_go.FlatCold.Counts.{count, count-one_more}
use sqd_go.FlatCold.Linked.{Linked, IsLinked}
use sqd_go.FlatCold.Unlink.{write-ne, write_self}
use sqd_go.FlatCold.Delink.{idx_unlink-Linked}

-- A free slot is returned. The others are in use as before, and the slot was in use only in a full
-- store. The hand has moved on by the rounds
-- at most.
pub record Freed (f : FlatCold) (full : Bool) (rounds : ℕ) (answer : Option (ℕ × FlatCold))
    : Type 0 where
  pub slot : ℕ
  pub buckets' : ℕ → Option ℕ
  pub next' : ℕ → Option ℕ
  pub in_use' : ℕ → Bool
  pub ref' : ℕ → Bool
  pub hand' : ℕ
  pub size' : ℕ
  pub returns :
      answer
      ≡ some (
        slot,
        record f {
          buckets = buckets';
          next = next';
          in_use = in_use';
          ref = ref';
          hand = hand';
          size = size';
        },
      )
  pub in_range : slot < f.capacity
  pub linked : Linked f.capacity f.bucket_mask buckets' next' in_use' f.slot_key
  pub counted : size' ≡ count in_use' f.capacity
  pub free : in_use' slot ≡ false
  pub others : (j : ℕ) → j ≢ slot → in_use' j ≡ f.in_use j
  pub victim : f.in_use slot ≡ true → full ≡ true
  pub moved : hand' ≤ f.hand + rounds
  pub not_grown : size' ≤ f.size

-- The slot under the hand is free.
Freed-here :
    (f : FlatCold) (full : Bool) (d fuel : ℕ)
    → IsLinked f
    → f.size ≡ count f.in_use f.capacity
    → 0 < f.capacity
    → f.in_use (f.hand % f.capacity) ≡ false
    → Freed f full (suc d) (alloc_loop (suc fuel) full f)
unfolding alloc_loop
Freed-here f full d fuel k counted positive free_ = record {
  slot = f.hand % f.capacity;
  buckets' = f.buckets;
  next' = f.next;
  in_use' = f.in_use;
  ref' = f.ref;
  hand' = word (f.hand + 1);
  size' = f.size;
  returns = rw free_;
  in_range = mod-lt f.hand positive;
  linked = k;
  counted = counted;
  free = free_;
  others = λ j ne. refl;
  victim = λ h. cc (h, free_);
  moved = omega (arith, mod-le (f.hand + 1) (2 ^ 64));
  not_grown = omega arith;
}

-- The slot under the hand is evicted.
Freed-victim :
    (f : FlatCold) (d fuel : ℕ)
    → IsLinked f
    → f.size ≡ count f.in_use f.capacity
    → 0 < f.capacity
    → f.in_use (f.hand % f.capacity) ≡ true
    → f.ref (f.hand % f.capacity) ≡ false
    → Freed f true (suc d) (alloc_loop (suc fuel) true f)
unfolding alloc_loop
Freed-victim f d fuel k counted positive used cold =
    let idx = f.hand % f.capacity in
    let lt : idx < f.capacity = mod-lt f.hand positive in
    let (bs, nx, done_, linked) =
      idx_unlink-Linked (advance f) (f.slot_key idx) idx k lt used refl in
    record {
      slot = idx;
      buckets' = bs;
      next' = nx;
      in_use' = write f.in_use idx false;
      ref' = f.ref;
      hand' = word (f.hand + 1);
      size' = f.size - 1;
      returns = rw (used, cold, done_);
      in_range = lt;
      linked = linked;
      counted = omega (
        arith,
        counted,
        count-one_more (write f.in_use idx false) f.in_use f.capacity idx lt
            (write_self f.in_use idx false) used (λ i ne. sym (write-ne f.in_use idx false i ne)),
      );
      free = write_self f.in_use idx false;
      others = λ j ne. write-ne f.in_use idx false j ne;
      victim = λ h. refl;
      moved = omega (arith, mod-le (f.hand + 1) (2 ^ 64));
      not_grown = omega arith;
    }

on_path :
    (f : FlatCold) (d : ℕ)
    → f.hand + suc d < 2 ^ 64
    → (f.hand + suc d) % f.capacity ≡ (word (f.hand + 1) + d) % f.capacity
on_path f d lt =
    let small : word (f.hand + 1) ≡ f.hand + 1 = mod-eq_of_lt (omega arith) in
    ap (λ k. k % f.capacity) {x = f.hand + suc d} {y = word (f.hand + 1) + d} (omega (arith, small))

hand_on : (f : FlatCold) (d : ℕ) → f.hand + suc d < 2 ^ 64 → word (f.hand + 1) + d < 2 ^ 64
hand_on f d lt =
    let small : word (f.hand + 1) ≡ f.hand + 1 = mod-eq_of_lt (omega arith) in omega (arith, small)

same_slot :
    (f : FlatCold)
    → f.in_use ((f.hand + 0) % f.capacity) ≡ false
    → f.in_use (f.hand % f.capacity) ≡ false
same_slot f h = ap (λ k. f.in_use (k % f.capacity)) {x = f.hand} (omega arith) ∙ h

same_ref :
    (f : FlatCold) → f.ref ((f.hand + 0) % f.capacity) ≡ false → f.ref (f.hand % f.capacity) ≡ false
same_ref f h = ap (λ k. f.ref (k % f.capacity)) {x = f.hand} (omega arith) ∙ h

-- A bit that is clear stays so when the hand passes over.
cleared : (f : FlatCold) (i : ℕ) → f.ref i ≡ false → (pass_over true f).ref i ≡ false
cleared f i h = elim (Bool-cases (i == f.hand % f.capacity)) [
  | inl here ↦ rw here
  | inr there ↦ rw there h
]

-- What the rest of the sweep frees, from where the hand has moved on.
pub Freed-later :
    (f : FlatCold) (full : Bool) (h : ℕ) (r : ℕ → Bool) (n m : ℕ) {a b : Option (ℕ × FlatCold)}
    → h + n ≤ f.hand + m
    → Freed (record f { hand = h; ref = r }) full n a
    → b ≡ a
    → Freed f full m b
Freed-later f full h r n m le x e = record {
  slot = x.slot;
  buckets' = x.buckets';
  next' = x.next';
  in_use' = x.in_use';
  ref' = x.ref';
  hand' = x.hand';
  size' = x.size';
  returns = e ∙ x.returns;
  in_range = x.in_range;
  linked = x.linked;
  counted = x.counted;
  free = x.free;
  others = x.others;
  victim = x.victim;
  moved = omega (arith, x.moved, le);
  not_grown = x.not_grown;
}

-- With room, the sweep reaches a free slot `d` steps on.
pub sweep_room :
    (d fuel : ℕ) (f : FlatCold)
    → IsLinked f
    → f.size ≡ count f.in_use f.capacity
    → 0 < f.capacity
    → f.hand + d < 2 ^ 64
    → d < fuel
    → f.in_use ((f.hand + d) % f.capacity) ≡ false
    → Freed f false (suc d) (alloc_loop fuel false f)
unfolding alloc_loop
sweep_room d zero f k counted positive small lt free_ = absurd (omega arith)
sweep_room zero (suc fuel) f k counted positive small lt free_ =
    Freed-here f false 0 fuel k counted positive (same_slot f free_)
sweep_room (suc d) (suc fuel) f k counted positive small lt free_ =
    elim (Bool-cases (f.in_use (f.hand % f.capacity))) [
      | inr no_ ↦ Freed-here f false (suc d) fuel k counted positive no_
      | inl yes_ ↦
          Freed-later f false (word (f.hand + 1)) f.ref (suc d) (suc (suc d))
            (omega (arith, mod-le (f.hand + 1) (2 ^ 64)))
            (sweep_room d fuel (advance f) k counted positive (hand_on f d small) (omega arith)
              (ap f.in_use (sym (on_path f d small)) ∙ free_))
            (rw yes_)
    ]

-- In a full store, it reaches a slot that is free or has had its second chance.
pub sweep_full :
    (d fuel : ℕ) (f : FlatCold)
    → IsLinked f
    → f.size ≡ count f.in_use f.capacity
    → 0 < f.capacity
    → f.hand + d < 2 ^ 64
    → d < fuel
    → f.ref ((f.hand + d) % f.capacity) ≡ false
    → Freed f true (suc d) (alloc_loop fuel true f)
unfolding alloc_loop
sweep_full d zero f k counted positive small lt cold = absurd (omega arith)
sweep_full zero (suc fuel) f k counted positive small lt cold =
    elim (Bool-cases (f.in_use (f.hand % f.capacity))) [
      | inr no_ ↦ Freed-here f true 0 fuel k counted positive no_
      | inl yes_ ↦ Freed-victim f 0 fuel k counted positive yes_ (same_ref f cold)
    ]
sweep_full (suc d) (suc fuel) f k counted positive small lt cold =
    elim (Bool-cases (f.in_use (f.hand % f.capacity))) [
      | inr no_ ↦ Freed-here f true (suc d) fuel k counted positive no_
      | inl yes_ ↦ elim (Bool-cases (f.ref (f.hand % f.capacity))) [
        | inr no_ ↦ Freed-victim f (suc d) fuel k counted positive yes_ no_
        | inl warm ↦
            let r = write f.ref (f.hand % f.capacity) false in
            Freed-later f true (word (f.hand + 1)) r (suc d) (suc (suc d))
              (omega (arith, mod-le (f.hand + 1) (2 ^ 64)))
              (sweep_full d fuel (pass_over true f) k counted positive (hand_on f d small)
                (omega arith)
                (cleared f ((word (f.hand + 1) + d) % f.capacity)
                  (ap f.ref (sym (on_path f d small)) ∙ cold)))
              (rw (yes_, warm))
      ]
    ]
