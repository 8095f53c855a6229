-- ===== src/FlatCold/Counts.antt =====
-- How many of the first indices pass a test.
use sqd_go.Base.{
  ℕ, zero, suc, ◌+◌, ◌≤◌, ◌<◌, ◌≡◌, ◌≢◌, refl, sym, ap, ◌∙◌, Bool, true, false, inl, inr,
  Bool-cases, ◌==◌, ==_iff, if◌then◌else◌, arith,
}

abbrev pub count : (ℕ → Bool) → ℕ → ℕ
count p zero = 0
count p (suc n) = (if p n then 1 else 0) + count p n

pub count-le : (p : ℕ → Bool) (n : ℕ) → count p n ≤ n
count-le p zero = omega arith
count-le p (suc n) = ground (arith, count-le p n)

count-cong : (p q : ℕ → Bool) (n : ℕ) → ((i : ℕ) → i < n → p i ≡ q i) → count p n ≡ count q n
count-cong p q zero h = refl
count-cong p q (suc n) h = rw (h n (omega arith), count-cong p q n (λ i lt. h i (omega arith)))

-- One more index passes.
pub count-one_more :
    (p q : ℕ → Bool) (n x : ℕ)
    → x < n
    → p x ≡ false
    → q x ≡ true
    → ((i : ℕ) → i ≢ x → q i ≡ p i)
    → count q n ≡ count p n + 1
count-one_more p q zero x lt no_ yes_ same = absurd (omega arith)
count-one_more p q (suc n) x lt no_ yes_ same = elim (Bool-cases (n == x)) [
  | inl here ↦
      let at : n ≡ x = (==_iff n x).0 here in
      let rest : count q n ≡ count p n =
        count-cong q p n (λ i below. same i (λ e. absurd (omega (arith, at)))) in
      ground (arith, ap p at ∙ no_, ap q at ∙ yes_, rest)
  | inr other ↦
      let ne : n ≢ x = λ e. cc ((==_iff n x).1 e) in
      ground (arith, same n ne, count-one_more p q n x (omega (arith, ne)) no_ yes_ same)
]

-- Where not all pass, one does not.
pub count-free : (p : ℕ → Bool) (n : ℕ) → count p n < n → (i : ℕ) × (i < n) × (p i ≡ false)
count-free p zero h = absurd (omega arith)
count-free p (suc n) h = elim (Bool-cases (p n)) [
  | inl yes_ ↦ let (i, lt, e) = count-free p n (ground (arith, yes_)) in (i, omega arith, e)
  | inr no_ ↦ (n, omega arith, no_)
]

-- Where all pass, each does.
pub count-full : (p : ℕ → Bool) (n : ℕ) → n ≤ count p n → (i : ℕ) → i < n → p i ≡ true
count-full p zero h i lt = absurd (omega arith)
count-full p (suc n) h i lt = elim (Bool-cases (n == i)) [
  | inl here ↦ let at : n ≡ i = (==_iff n i).0 here in ap p (sym at) ∙ ground (arith, count-le p n)
  | inr other ↦
      let ne : n ≢ i = λ e. cc ((==_iff n i).1 e) in
      count-full p n (ground (arith, count-le p n)) i (omega (arith, ne))
]

pub count-none : (p : ℕ → Bool) (n : ℕ) → ((i : ℕ) → p i ≡ false) → count p n ≡ 0
count-none p zero h = refl
count-none p (suc n) h = ground (arith, h n, count-none p n h)
