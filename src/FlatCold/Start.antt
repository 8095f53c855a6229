-- ===== src/FlatCold/Start.antt =====
-- A store that `init` has allocated is valid and empty.
use native.Mathlib.Nat.{mod-eq_of_lt, pow-suc}
use sqd_go.Base.{
  ℕ, zero, suc, ◌-◌, ◌*◌, ◌^◌, ◌≤◌, ◌<◌, ◌≡◌, refl, sym, ap, ◌∙◌, subst, false, inl, inr,
  Bool-cases, ltb, arith, List, [], none, some, replicate, length-replicate,
}
use sqd_go.ColdFilter.{word}
use sqd_go.FlatCold.{FlatCold, bucket_loop, init, init_capacity}
use sqd_go.FlatCold.Counts.{count-none}
use sqd_go.FlatCold.Linked.{IsValid, Holds}

-- The doubling ends where enough doublings reach the capacity.
bucket_loop-covers :
    (n bc capacity : ℕ)
    → 0 < bc
    → capacity ≤ bc * 2 ^ n
    → capacity ≤ 2 ^ 31
    → (b : ℕ) × (bucket_loop (suc n) bc capacity ≡ some b) × (0 < b)
unfolding bucket_loop
bucket_loop-covers zero bc capacity p le small = elim (Bool-cases (ltb bc capacity)) [
  | inl yes_ ↦ absurd (ground (arith, yes_))
  | inr no_ ↦ (bc, rw no_, p)
]
bucket_loop-covers (suc n) bc capacity p le small = elim (Bool-cases (ltb bc capacity)) [
  | inl yes_ ↦
      let lt : bc < capacity = ground (arith, yes_) in
      let e : word (bc * 2) ≡ bc * 2 = mod-eq_of_lt (omega arith) in
      let le' : capacity ≤ word (bc * 2) * 2 ^ n =
        subst (λ k. capacity ≤ k * 2 ^ n) (sym e)
          (omega (arith, ap (λ (t : ℕ). bc * t) (pow-suc 2 n))) in
      let (b, done_, q) =
        bucket_loop-covers n (word (bc * 2)) capacity (omega (arith, e)) le' small in
      (b, rw (yes_, done_), q)
  | inr no_ ↦ (bc, rw no_, p)
]

-- From a store with nothing in it, `init` ends in a valid store that holds nothing.
pub init-IsValid :
    (f : FlatCold) (key_len val_len : ℕ)
    → f.size ≡ 0
    → 0 < key_len
    → 0 < init_capacity f key_len val_len
    → init_capacity f key_len val_len ≤ 2 ^ 31
    → (g : FlatCold) × (init f key_len val_len ≡ some g)
      × IsValid g
      × (g.key_len ≡ key_len)
      × (g.val_len ≡ val_len)
      × (g.capacity ≡ init_capacity f key_len val_len)
      × (g.hand ≡ f.hand)
      × (g.size ≡ 0)
      × ((key v : List ℕ) → ¬ Holds g key v)
unfolding init
init-IsValid f key_len val_len empty positive some_ small =
    let c = init_capacity f key_len val_len in
    let (bc, done_, p) = bucket_loop-covers 63 1 c (omega arith) (omega arith) small in
    let g : FlatCold = record f {
      capacity = c;
      key_len = key_len;
      val_len = val_len;
      slot_key = λ i. replicate key_len 0;
      slot_val = λ i. replicate val_len 0;
      in_use = λ i. false;
      ref = λ i. false;
      next = λ i. some 0;
      bucket_count = bc;
      buckets = λ i. none;
      bucket_mask = bc - 1;
    } in
    (
      g,
      rw done_,
      (
        record {
          lists = λ b. [];
          leads = λ b. refl;
          below = λ b i h. cc;
          used = λ b i h. cc;
          hashed = λ b i h. cc;
          complete = λ i lt h. cc;
          distinct = λ b. tt;
          unique = λ i j li lj oi oj e. cc;
        },
        record {
          nonempty = some_;
          reached = small;
          key_positive = positive;
          bucketed = p;
          masked = omega arith;
          counted = empty ∙ sym (count-none (λ i. false) c (λ i. refl));
          key_stride = λ i lt. length-replicate key_len 0;
          val_stride = λ i lt. length-replicate val_len 0;
        },
      ),
      refl,
      refl,
      refl,
      refl,
      empty,
      λ key v (i, lt, on, at, e). cc,
    )
