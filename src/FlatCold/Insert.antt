-- ===== src/FlatCold/Insert.antt =====
-- A key copied into a free slot and linked in front of its chain.
use native.Mathlib.Nat.{mod-eq_of_lt}
use sqd_go.Base.{
  ℕ, suc, ◌%◌, ◌^◌, ◌≤◌, ◌<◌, ◌≡◌, ◌≢◌, ◌⊎◌, refl, sym, ap, ◌∙◌, subst, Bool, true, false, inl, inr,
  Bool-cases, if◌then◌else◌, ◌==◌, ==_iff, lt→ltb, arith, List, [], ◌∷◌, Option, some, length,
}
use sqd_go.FlatCold.{FlatCold, write, copy, int32, bucket_of, idx_insert}
use sqd_go.FlatCold.Calls.{fill}
use sqd_go.FlatCold.Links.{has, Distinct, Leads, Leads-frame, Leads-if}
use sqd_go.FlatCold.Linked.{IsLinked}
use sqd_go.FlatCold.Unlink.{write-ne, write_self}

pub copy-all : (dst src : List ℕ) → length dst ≡ length src → copy dst src ≡ src
unfolding copy
copy-all [] [] e = refl
copy-all [] (b ∷ src) e = absurd (omega (arith, e))
copy-all (d ∷ dst) [] e = absurd (omega (arith, e))
copy-all (d ∷ dst) (b ∷ src) e = ap (◌∷◌ b) (copy-all dst src (omega (arith, e)))

pub length-copy : (dst src : List ℕ) → length (copy dst src) ≡ length dst
unfolding copy
length-copy [] src = refl
length-copy (d ∷ dst) [] = refl
length-copy (d ∷ dst) (b ∷ src) = ap suc (length-copy dst src)

int32-small : (slot : ℕ) → slot < 2 ^ 31 → int32 slot ≡ some slot
int32-small slot lt =
    let e : slot % 2 ^ 32 ≡ slot = mod-eq_of_lt (omega arith) in rw (e, lt→ltb slot (2 ^ 31) lt)

-- The chains with the slot in front of one of them.
abbrev in_front : Bool → ℕ → List ℕ → List ℕ
in_front b slot xs = if b then slot ∷ xs else xs

has-in_front :
    (b : Bool) (slot i : ℕ) (xs : List ℕ)
    → has i (in_front b slot xs) ≡ true
    → ((i ≡ slot) × (b ≡ true)) ⊎ (has i xs ≡ true)
has-in_front true slot i xs h = elim (Bool-cases (i == slot)) [
  | inl yes_ ↦ inl ((==_iff i slot).0 yes_, refl)
  | inr no_ ↦ inr (ground arith)
]
has-in_front false slot i xs h = inr h

in_front-has :
    (b : Bool) (slot i : ℕ) (xs : List ℕ) → has i xs ≡ true → has i (in_front b slot xs) ≡ true
in_front-has true slot i xs h = ground arith
in_front-has false slot i xs h = h

front :
    (b : Bool) (slot i : ℕ) (xs : List ℕ) → b ≡ true → i ≡ slot → has i (in_front b slot xs) ≡ true
front true slot i xs h e = ground (arith, e)
front false slot i xs h e = cc

in_front-Distinct :
    (b : Bool) (slot : ℕ) (xs : List ℕ)
    → has slot xs ≡ false
    → Distinct xs
    → Distinct (in_front b slot xs)
in_front-Distinct true slot xs out d = (out, d)
in_front-Distinct false slot xs out d = d

module _ (f : FlatCold) (key : List ℕ) (slot : ℕ) (k : IsLinked f) (free : f.in_use slot ≡ false)
    (stride : length (f.slot_key slot) ≡ length key) where
  -- The bucket of the key, and the arrays and chains with the key in the slot.
  abbrev home : ℕ
  home = bucket_of key f.bucket_mask

  abbrev used_with : ℕ → Bool
  used_with = write f.in_use slot true

  abbrev keys_with : ℕ → List ℕ
  keys_with = write f.slot_key slot (copy (f.slot_key slot) key)

  abbrev buckets_with : ℕ → Option ℕ
  buckets_with = write f.buckets home (int32 slot)

  abbrev next_with : ℕ → Option ℕ
  next_with = write f.next slot (f.buckets home)

  abbrev lists_with : ℕ → List ℕ
  lists_with c = in_front (c == home) slot (k.lists c)

  own_key : keys_with slot ≡ key
  own_key =
      write_self f.slot_key slot (copy (f.slot_key slot) key)
      ∙ copy-all (f.slot_key slot) key stride

  old_key : (i : ℕ) → i ≢ slot → keys_with i ≡ f.slot_key i
  old_key i ne = write-ne f.slot_key slot (copy (f.slot_key slot) key) i ne

  was_used : (i : ℕ) → i ≢ slot → used_with i ≡ true → f.in_use i ≡ true
  was_used i ne h = sym (write-ne f.in_use slot true i ne) ∙ h

  -- The slot is in no chain yet.
  unlisted : (c : ℕ) → has slot (k.lists c) ≡ false
  unlisted c = elim (Bool-cases (has slot (k.lists c))) [
    | inl yes_ ↦ cc (k.used c slot yes_, free)
    | inr no_ ↦ no_
  ]

  not_slot : (c i : ℕ) → has i (k.lists c) ≡ true → i ≢ slot
  not_slot c i h e = cc (ap (λ j. has j (k.lists c)) e, h, unlisted c)

  listed_here :
      (c i : ℕ)
      → has i (lists_with c) ≡ true
      → ((i ≡ slot) × (c ≡ home)) ⊎ (has i (k.lists c) ≡ true)
  listed_here c i h = elim (has-in_front (c == home) slot i (k.lists c) h) [
    | inl (e, t) ↦ inl (e, (==_iff c home).0 t)
    | inr u ↦ inr u
  ]

  still-Leads : (c : ℕ) → Leads next_with (f.buckets c) (k.lists c)
  still-Leads c =
      Leads-frame (f.buckets c) (k.lists c)
        (λ j h. write-ne f.next slot (f.buckets home) j (not_slot c j h)) (k.leads c)

  Leads-with : slot < 2 ^ 31 → (c : ℕ) → Leads next_with (buckets_with c) (lists_with c)
  Leads-with small c =
      Leads-if (c == home) next_with (buckets_with c) (slot ∷ k.lists c) (k.lists c)
        (λ h.
          let e : c ≡ home = (==_iff c home).0 h in
          (
            ap buckets_with e ∙ write_self f.buckets home (int32 slot) ∙ int32-small slot small,
            subst (λ p. Leads next_with p (k.lists c))
                (ap f.buckets e ∙ sym (write_self f.next slot (f.buckets home))) (still-Leads c),
          ))
        (λ h.
          subst (λ p. Leads next_with p (k.lists c))
            (sym (write-ne f.buckets home (int32 slot) c (λ e. cc ((==_iff c home).1 e, h))))
            (still-Leads c))

  complete_with :
      (i : ℕ)
      → i < f.capacity
      → used_with i ≡ true
      → has i (lists_with (bucket_of (keys_with i) f.bucket_mask)) ≡ true
  complete_with i lt on = elim (Bool-cases (i == slot)) [
    | inl e ↦
        let e' : i ≡ slot = (==_iff i slot).0 e in
        subst (λ x. has i (lists_with (bucket_of x f.bucket_mask)) ≡ true)
          (sym (ap keys_with e' ∙ own_key))
          (front (home == home) slot i (k.lists home) ((==_iff home home).1 refl) e')
    | inr ne ↦
        let ne' : i ≢ slot = λ e. cc ((==_iff i slot).1 e, ne) in
        let c : ℕ = bucket_of (f.slot_key i) f.bucket_mask in
        subst (λ x. has i (lists_with (bucket_of x f.bucket_mask)) ≡ true) (sym (old_key i ne'))
          (in_front-has (c == home) slot i (k.lists c) (k.complete i lt (was_used i ne' on)))
  ]

  module _ (absent : (i : ℕ) → i < f.capacity → f.in_use i ≡ true → f.slot_key i ≢ key) where
    -- Another slot in use has another key.
    no_clash :
        (m n : ℕ)
        → n < f.capacity
        → used_with n ≡ true
        → m ≡ slot
        → n ≢ slot
        → keys_with m ≢ keys_with n
    no_clash m n lt on a ne h =
        absent n lt (was_used n ne on) (sym (old_key n ne) ∙ sym h ∙ ap keys_with a ∙ own_key)

    unique_with :
        (i j : ℕ)
        → i < f.capacity
        → j < f.capacity
        → used_with i ≡ true
        → used_with j ≡ true
        → keys_with i ≡ keys_with j
        → i ≡ j
    unique_with i j li lj oi oj e = elim (Bool-cases (i == slot)) [
      | inl a ↦ elim (Bool-cases (j == slot)) [
        | inl c ↦ (==_iff i slot).0 a ∙ sym ((==_iff j slot).0 c)
        | inr c ↦
            absurd (no_clash i j lj oj ((==_iff i slot).0 a) (λ h. cc ((==_iff j slot).1 h, c)) e)
      ]
      | inr a ↦
          let ine : i ≢ slot = λ h. cc ((==_iff i slot).1 h, a) in
          elim (Bool-cases (j == slot)) [
            | inl c ↦ absurd (no_clash j i li oi ((==_iff j slot).0 c) ine (sym e))
            | inr c ↦
                let jn : j ≢ slot = λ h. cc ((==_iff j slot).1 h, c) in
                k.unique i j li lj (was_used i ine oi) (was_used j jn oj)
                  (sym (old_key i ine) ∙ e ∙ old_key j jn)
          ]
    ]

    -- The index with the slot is an index of the slots in use with it.
    pub insert-Linked :
        (value : List ℕ)
        → slot < f.capacity
        → f.capacity ≤ 2 ^ 31
        → IsLinked (idx_insert (fill f slot key value) key slot)
    unfolding idx_insert fill
    insert-Linked value lt reached = record {
      lists = lists_with;
      leads = Leads-with (omega arith);
      below = λ c i h. elim (listed_here c i h) [
        | inl (e, t) ↦ omega (arith, e)
        | inr u ↦ k.below c i u
      ];
      used = λ c i h. elim (listed_here c i h) [
        | inl (e, t) ↦ ap used_with e ∙ write_self f.in_use slot true
        | inr u ↦ write-ne f.in_use slot true i (not_slot c i u) ∙ k.used c i u
      ];
      hashed = λ c i h. elim (listed_here c i h) [
        | inl (e, t) ↦ ap (λ x. bucket_of x f.bucket_mask) (ap keys_with e ∙ own_key) ∙ sym t
        | inr u ↦ ap (λ x. bucket_of x f.bucket_mask) (old_key i (not_slot c i u)) ∙ k.hashed c i u
      ];
      complete = complete_with;
      distinct = λ c. in_front-Distinct (c == home) slot (k.lists c) (unlisted c) (k.distinct c);
      unique = unique_with;
    }
