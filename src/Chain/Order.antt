-- ===== src/Chain/Order.antt =====
-- Chains in ascending order of block numbers, and the blocks that a chain holds.
use sqd_go.Base.{
  ℕ, zero, suc, ◌≤◌, ◌<◌, ◌≡◌, sym, subst, ◌⊎◌, inl, inr, Option, none, some, List, [], ◌∷◌, ◌++◌,
  arith, get_elem?, last?, set_last, take, drop,
}
use sqd_go.Chain.{BlockRef}

-- Every block has a number above `n`.
abbrev pub Above : ℕ → List BlockRef → Type 0
Above n [] = Unit {0}
Above n (b ∷ bs) = (n < b.number) × Above n bs

abbrev pub Ascending : List BlockRef → Type 0
Ascending [] = Unit {0}
Ascending (b ∷ bs) = Above b.number bs × Ascending bs

-- The block stands in the chain.
abbrev pub Holds : List BlockRef → BlockRef → Type 0
Holds [] b = ⊥
Holds (c ∷ cs) b = (b ≡ c) ⊎ Holds cs b

-- All blocks lie above the finalized one, if there is one.
abbrev pub AboveHead : Option BlockRef → List BlockRef → Type 0
AboveHead none bs = Unit {0}
AboveHead (some f) bs = Above f.number bs

pub Above-mono : {m n : ℕ} (bs : List BlockRef) → m ≤ n → Above n bs → Above m bs
Above-mono [] h a = tt
Above-mono (b ∷ bs) h a = (omega arith, Above-mono bs h a.1)

pub Above-Holds :
    (n : ℕ) (b : BlockRef) (bs : List BlockRef) → Above n bs → Holds bs b → n < b.number
Above-Holds n b [] a h = absurd h
Above-Holds n b (c ∷ bs) a (inl e) = subst (λ x. n < x.number) (sym e) a.0
Above-Holds n b (c ∷ bs) a (inr h) = Above-Holds n b bs a.1 h

pub Holds-get_elem? :
    (bs : List BlockRef) (k : ℕ) {b : BlockRef} → get_elem? bs k ≡ some b → Holds bs b
Holds-get_elem? [] k e = cc
Holds-get_elem? (c ∷ bs) zero e = inl (ground arith)
Holds-get_elem? (c ∷ bs) (suc k) e = inr (Holds-get_elem? bs k e)

pub Above-drop : (n k : ℕ) (bs : List BlockRef) → Above n bs → Above n (drop k bs)
Above-drop n zero bs a = a
Above-drop n (suc k) [] a = tt
Above-drop n (suc k) (b ∷ bs) a = Above-drop n k bs a.1

pub Ascending-drop : (k : ℕ) (bs : List BlockRef) → Ascending bs → Ascending (drop k bs)
Ascending-drop zero bs a = a
Ascending-drop (suc k) [] a = tt
Ascending-drop (suc k) (b ∷ bs) a = Ascending-drop k bs a.1

pub Above-take : (n k : ℕ) (bs : List BlockRef) → Above n bs → Above n (take k bs)
Above-take n zero bs a = tt
Above-take n (suc k) [] a = tt
Above-take n (suc k) (b ∷ bs) a = (a.0, Above-take n k bs a.1)

pub Ascending-take : (k : ℕ) (bs : List BlockRef) → Ascending bs → Ascending (take k bs)
Ascending-take zero bs a = tt
Ascending-take (suc k) [] a = tt
Ascending-take (suc k) (b ∷ bs) a = (Above-take b.number k bs a.0, Ascending-take k bs a.1)

pub Above-append :
    {n : ℕ} (bs : List BlockRef) (b : BlockRef)
    → Above n bs
    → n < b.number
    → Above n (bs ++ (b ∷ []))
Above-append [] b a h = (h, tt)
Above-append (c ∷ bs) b a h = (a.0, Above-append bs b a.1 h)

Above-last :
    {n : ℕ} (bs : List BlockRef) {l : BlockRef} → Above n bs → last? bs ≡ some l → n < l.number
Above-last [] a e = cc
Above-last (b ∷ []) a e = ground arith
Above-last (b ∷ c ∷ bs) a e = Above-last (c ∷ bs) a.1 e

-- The last block bounds the chain: what lies above it may be appended.
pub Ascending-append :
    (bs : List BlockRef) (b : BlockRef) {l : BlockRef}
    → Ascending bs
    → last? bs ≡ some l
    → l.number < b.number
    → Ascending (bs ++ (b ∷ []))
Ascending-append [] b a e h = (tt, tt)
Ascending-append (c ∷ []) b a e h = ground arith
Ascending-append (c ∷ d ∷ bs) b {l} a e h =
    let lower : c.number < l.number = Above-last (d ∷ bs) a.0 e in
    (Above-append (d ∷ bs) b a.0 (omega arith), Ascending-append (d ∷ bs) b a.1 e h)

pub Above-set_last :
    {n : ℕ} (bs : List BlockRef) (b : BlockRef)
    → Above n bs
    → n < b.number
    → Above n (set_last bs b)
Above-set_last [] b a h = tt
Above-set_last (c ∷ []) b a h = (h, tt)
Above-set_last (c ∷ d ∷ bs) b a h = (a.0, Above-set_last (d ∷ bs) b a.1 h)

-- So may a block of the same number take the last one's place.
pub Ascending-set_last :
    (bs : List BlockRef) (b : BlockRef) {l : BlockRef}
    → Ascending bs
    → last? bs ≡ some l
    → b.number ≡ l.number
    → Ascending (set_last bs b)
Ascending-set_last [] b a e h = tt
Ascending-set_last (c ∷ []) b a e h = (tt, tt)
Ascending-set_last (c ∷ d ∷ bs) b {l} a e h =
    let lower : c.number < l.number = Above-last (d ∷ bs) a.0 e in
    (Above-set_last (d ∷ bs) b a.0 (omega arith), Ascending-set_last (d ∷ bs) b a.1 e h)

Above-get_elem? :
    (n : ℕ) (bs : List BlockRef) (j : ℕ) {d : BlockRef}
    → Above n bs
    → get_elem? bs j ≡ some d
    → n < d.number
Above-get_elem? n [] j a e = cc
Above-get_elem? n (b ∷ bs) zero a e = ground arith
Above-get_elem? n (b ∷ bs) (suc j) a e = Above-get_elem? n bs j a.1 e

pub Ascending-get_elem? :
    (bs : List BlockRef) (j k : ℕ) {d e : BlockRef}
    → Ascending bs
    → get_elem? bs j ≡ some d
    → get_elem? bs k ≡ some e
    → j ≤ k
    → d.number ≤ e.number
Ascending-get_elem? [] j k a p q le = cc
Ascending-get_elem? (b ∷ bs) zero zero a p q le = ground arith
Ascending-get_elem? (b ∷ bs) zero (suc k) a p q le =
    ground (arith, Above-get_elem? b.number bs k a.0 q)
Ascending-get_elem? (b ∷ bs) (suc j) zero a p q le = absurd (omega arith)
Ascending-get_elem? (b ∷ bs) (suc j) (suc k) a p q le =
    Ascending-get_elem? bs j k a.1 p q (omega arith)
