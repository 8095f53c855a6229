-- ===== src/FlatCold/Find.antt =====
-- A walk along a chain finds the slot of the key.
use sqd_go.Base.{
  ℕ, bytes_equal, bytes_equal_iff, zero, suc, ◌≤◌, ◌<◌, ◌≡◌, ◌≢◌, ◌⊎◌, refl, sym, ap, ◌∙◌, true,
  false, inl, inr, Bool-cases, ◌==◌, ==_iff, arith, List, [], ◌∷◌, Option, none, some, length, ltb,
  lt→ltb, subst,
}
use sqd_go.FlatCold.{FlatCold, find_loop, lookup, bucket_of}
use sqd_go.FlatCold.Links.{has, Leads, length-le}
use sqd_go.FlatCold.Linked.{IsValid}

find_loop_lem :
    (fuel : ℕ) (f : FlatCold) (key : List ℕ) (p : Option ℕ) (xs : List ℕ)
    → Leads f.next p xs
    → length xs ≤ fuel
    → ((i : ℕ) → has i xs ≡ true → i < f.capacity)
    → ((i : ℕ) → has i xs ≡ true → f.in_use i ≡ true)
    → ((i : ℕ) × (find_loop fuel f key p ≡ some (some i))
        × (has i xs ≡ true)
        × (f.slot_key i ≡ key))
      ⊎ ((find_loop fuel f key p ≡ some none) × ((i : ℕ) → has i xs ≡ true → f.slot_key i ≢ key))
unfolding find_loop
find_loop_lem fuel f key none [] l le below used = inr (refl, λ i h. cc)
find_loop_lem fuel f key (some i) [] l le below used = cc
find_loop_lem fuel f key none (x ∷ xs) (e, l) le below used = cc
find_loop_lem zero f key (some i) (x ∷ xs) (e, l) le below used = absurd (omega arith)
find_loop_lem (suc fuel) f key (some i) (x ∷ xs) (e, l) le below used =
    let same : i ≡ x = cc in
    let in_range : ltb i f.capacity ≡ true =
      ap (λ k. ltb k f.capacity) same ∙ lt→ltb x f.capacity (below x (ground arith)) in
    let on : f.in_use i ≡ true = ap f.in_use same ∙ used x (ground arith) in
    elim (Bool-cases (bytes_equal (f.slot_key i) key)) [
      | inl yes_ ↦
          inl (i, rw (in_range, on, yes_), ground (arith, same), (bytes_equal_iff _ _).0 yes_)
      | inr no_ ↦
          elim (find_loop_lem fuel f key (f.next i) xs
            (subst (λ k. Leads f.next (f.next k) xs) (sym same) l) (omega arith)
            (λ j h. below j (ground arith)) (λ j h. used j (ground arith))) [
              | inl (j, found, in_xs, at) ↦ inl (j, rw (in_range, on, no_, found), ground arith, at)
              | inr (missed, others) ↦ inr (
                rw (in_range, on, no_, missed),
                λ j h at. elim (Bool-cases (j == x)) [
                  | inl here ↦
                      let jx : j ≡ x = (==_iff j x).0 here in
                      cc (
                        (bytes_equal_iff (f.slot_key i) key).1 (ap f.slot_key (same ∙ sym jx) ∙ at),
                        no_,
                      )
                  | inr there ↦ others j (ground arith) at
                ],
              )
            ]
    ]

-- On a valid store `lookup` ends, and finds the slot in use that has the key, where there is one.
pub lookup-IsValid :
    (f : FlatCold) (key : List ℕ)
    → IsValid f
    → ((i : ℕ) × (lookup f key ≡ some (some i))
        × (i < f.capacity)
        × (f.in_use i ≡ true)
        × (f.slot_key i ≡ key))
      ⊎ ((lookup f key ≡ some none)
          × ((i : ℕ) → i < f.capacity → f.in_use i ≡ true → f.slot_key i ≢ key))
unfolding lookup
lookup-IsValid f key (k, s) =
    let b = bucket_of key f.bucket_mask in
    let made : (f.bucket_count == 0) ≡ false = ground (arith, s.bucketed) in
    let bounded = length-le f.capacity (k.lists b) (k.distinct b) (k.below b) in
    elim (find_loop_lem f.capacity f key (f.buckets b) (k.lists b) (k.leads b) bounded (k.below b)
      (k.used b)) [
        | inl (i, found, here, at) ↦
            inl (i, rw (made, found), k.below b i here, k.used b i here, at)
        | inr (missed, others) ↦ inr (
          rw (made, missed),
          λ i lt on at.
              others i
                (subst (λ c. has i (k.lists (bucket_of c f.bucket_mask)) ≡ true) at
                  (k.complete i lt on))
                at,
        )
      ]
