-- ===== src/FlatCold/Links.antt =====
-- Chains of links as lists of slots.
use sqd_go.Base.{
  ℕ, ◌≤◌, ◌<◌, ◌≡◌, ◌≢◌, refl, sym, ◌∙◌, subst, Bool, true, false, not, ◌&&◌, ◌||◌, if◌then◌else◌,
  ◌==◌, ==_iff, arith, List, [], ◌∷◌, Option, none, some, length,
}
use sqd_go.FlatCold.Counts.{count, count-le, count-one_more, count-none}

abbrev pub has : ℕ → List ℕ → Bool
has a [] = false
has a (x ∷ xs) = (a == x) || has a xs

abbrev pub Distinct : List ℕ → Type 0
Distinct [] = Unit {0}
Distinct (x ∷ xs) = (has x xs ≡ false) × Distinct xs

-- From a link the chain leads through these slots to its end.
abbrev pub Leads : (ℕ → Option ℕ) → Option ℕ → List ℕ → Type 0
Leads next p [] = p ≡ none
Leads next p (x ∷ xs) = (p ≡ some x) × Leads next (next x) xs

abbrev pub remove : ℕ → List ℕ → List ℕ
remove a [] = []
remove a (x ∷ xs) = if x == a then xs else x ∷ remove a xs

pub Leads-frame :
    {next next' : ℕ → Option ℕ} (p : Option ℕ) (xs : List ℕ)
    → ((i : ℕ) → has i xs ≡ true → next' i ≡ next i)
    → Leads next p xs
    → Leads next' p xs
Leads-frame p [] same l = l
Leads-frame {next} {next' = next'} p (x ∷ xs) same (e, l) = (
  e,
  subst (λ q. Leads next' q xs) (sym (same x (ground arith)))
      (Leads-frame (next x) xs (λ i h. same i (ground arith)) l),
)

pub has-remove :
    (a : ℕ) (xs : List ℕ) (i : ℕ) → Distinct xs → has i (remove a xs) ≡ (has i xs && not (i == a))
has-remove a [] i d = refl
has-remove a (x ∷ xs) i (no_, d) = ground (arith, has-remove a xs i d)

Distinct-if :
    (b : Bool) (xs ys : List ℕ) → Distinct xs → Distinct ys → Distinct (if b then xs else ys)
Distinct-if true xs ys d e = d
Distinct-if false xs ys d e = e

pub remove-Distinct : (a : ℕ) (xs : List ℕ) → Distinct xs → Distinct (remove a xs)
remove-Distinct a [] d = tt
remove-Distinct a (x ∷ xs) (no_, d) =
    Distinct-if (x == a) xs (x ∷ remove a xs) d
      (ground (arith, has-remove a xs x d, no_), remove-Distinct a xs d)

-- A chain of different slots is no longer than there are slots.
pub length-le :
    (n : ℕ) (xs : List ℕ) → Distinct xs → ((i : ℕ) → has i xs ≡ true → i < n) → length xs ≤ n
length-le n xs d below = omega (arith, count-le (λ i. has i xs) n, count_has xs d below)
  where
    count_has :
        (ys : List ℕ)
        → Distinct ys
        → ((i : ℕ) → has i ys ≡ true → i < n)
        → count (λ i. has i ys) n ≡ length ys
    count_has [] e b = count-none (λ i. false) n (λ i. refl)
    count_has (y ∷ ys) (no_, e) b =
        count-one_more (λ i. has i ys) (λ i. has i (y ∷ ys)) n y (b y (ground arith)) no_
          (ground arith) (λ i ne. ground arith)
        ∙ omega (arith, count_has ys e (λ i h. b i (ground arith)))

pub Leads-if :
    (b : Bool) (next : ℕ → Option ℕ) (p : Option ℕ) (xs ys : List ℕ)
    → (b ≡ true → Leads next p xs)
    → (b ≡ false → Leads next p ys)
    → Leads next p (if b then xs else ys)
Leads-if true next p xs ys l m = l refl
Leads-if false next p xs ys l m = m refl

-- The head is removed, and the link leads past it.
pub Leads-remove_head :
    (next : ℕ → Option ℕ) (p : Option ℕ) (a x : ℕ) (xs : List ℕ)
    → x ≡ a
    → Leads next p xs
    → Leads next p (remove a (x ∷ xs))
Leads-remove_head next p a x xs e l =
    Leads-if (x == a) next p xs (x ∷ remove a xs) (λ h. l) (λ h. cc ((==_iff x a).1 e))

-- The head stays.
pub Leads-remove_tail :
    (next : ℕ → Option ℕ) (p : Option ℕ) (a x : ℕ) (xs : List ℕ)
    → x ≢ a
    → p ≡ some x
    → Leads next (next x) (remove a xs)
    → Leads next p (remove a (x ∷ xs))
Leads-remove_tail next p a x xs ne e l =
    Leads-if (x == a) next p xs (x ∷ remove a xs) (λ h. absurd (ne ((==_iff x a).0 h)))
      (λ h. (e, l))

pub remove-absent : (a : ℕ) (xs : List ℕ) → has a xs ≡ false → remove a xs ≡ xs
remove-absent a [] h = refl
remove-absent a (x ∷ xs) h = ground (arith, remove-absent a xs)
