-- ===== src/FlatCold/Stored.antt =====
-- What a `put` leaves in the store.
use sqd_go.Base.{
  ℕ, suc, ◌+◌, ◌≤◌, ◌<◌, ◌≡◌, ◌≢◌, ◌⊎◌, sym, ap, ◌∙◌, inl, inr, Bool-cases, ◌==◌, ==_iff, List,
  Option, some, length,
}
use sqd_go.FlatCold.{FlatCold, write, copy}
use sqd_go.FlatCold.Linked.{IsValid, Holds, SameShape}
use sqd_go.FlatCold.Unlink.{write-ne, write_self}
use sqd_go.FlatCold.Insert.{length-copy}

-- The store `f'` holds the value for the key, and of the other keys what `f` held, all of it, or all
-- but one key where `f` was full.
pub record Put (f : FlatCold) (key value : List ℕ) (answer : Option FlatCold) : Type 0 where
  pub after : FlatCold
  pub returns : answer ≡ some after
  pub valid : IsValid after
  pub shape : SameShape f after
  pub moved : after.hand ≤ f.hand + suc f.capacity
  pub grown : after.size ≤ f.size + 1
  pub stored : Holds after key value
  pub nothing_new : (other v : List ℕ) → other ≢ key → Holds after other v → Holds f other v
  pub kept :
      ((other v : List ℕ) → other ≢ key → Holds f other v → Holds after other v)
      ⊎ ((f.capacity ≤ f.size)
          × (lost : List ℕ) × ((other v : List ℕ)
              → other ≢ key
              → other ≢ lost
              → Holds f other v
              → Holds after other v))

-- The row written at one index keeps the stride of all.
pub stride-write :
    (rows : ℕ → List ℕ) (slot c len_ : ℕ) (src : List ℕ)
    → ((i : ℕ) → i < c → length (rows i) ≡ len_)
    → (i : ℕ) → i < c
    → length (write rows slot (copy (rows slot) src) i) ≡ len_
stride-write rows slot c len_ src all i lt = elim (Bool-cases (i == slot)) [
  | inl e ↦
      let at : i ≡ slot = (==_iff i slot).0 e in
      ap (λ j. length (write rows slot (copy (rows slot) src) j)) at
      ∙ ap length (write_self rows slot (copy (rows slot) src))
      ∙ length-copy (rows slot) src
      ∙ ap (λ j. length (rows j)) (sym at)
      ∙ all i lt
  | inr ne ↦
      ap length (write-ne rows slot (copy (rows slot) src) i (λ e. cc ((==_iff i slot).1 e, ne)))
      ∙ all i lt
]
