-- ===== src/Chain/Agreement.antt =====
-- What a fork rollback looks for, told without pointers: walk up the current chain and look each
-- number up among the fork's blocks; stop at the first block whose hash differs there.
use sqd_go.Base.{
  ℕ, suc, ◌+◌, ◌≤◌, ◌<◌, ◌≡◌, ◌≢◌, inl, inr, true, false, Option, none, some, List, [], ◌∷◌, ◌==◌,
  if◌then◌else◌, Bool-cases, arith, get_elem?, drop,
}
use sqd_go.Chain.{BlockRef, same_hash}
use sqd_go.Chain.Order.{Holds, Ascending, Above-Holds}

-- The first block of the list that has the number.
unfoldable pub block_at : ℕ → List BlockRef → Option BlockRef
block_at n [] = none
block_at n (b ∷ bs) = if b.number == n then some b else block_at n bs

unfoldable pub last_agreed : List BlockRef → List BlockRef → ℕ → Option ℕ → Option ℕ
unfolding block_at
last_agreed [] fork i last = last
last_agreed (c ∷ cs) fork i last = elim (block_at c.number fork) [
  | none ↦ last_agreed cs fork (i + 1) last
  | some f ↦ elim (same_hash c f) [ true ↦ last_agreed cs fork (i + 1) (some i) | false ↦ last ]
]

-- Each block of the fork at this block's number is this block.
abbrev pub Agrees : List BlockRef → BlockRef → Type 0
Agrees fork c = (f : BlockRef) → Holds fork f → f.number ≡ c.number → f ≡ c

-- The fork has another hash at this block's number.
abbrev pub Clashes : List BlockRef → BlockRef → Type 0
Clashes fork c = (f : BlockRef) × Holds fork f × (f.number ≡ c.number) × (f.hash ≢ c.hash)

-- A block of the list that the fork holds too stands above a clash.
abbrev pub Behind : List BlockRef → List BlockRef → Type 0
Behind fork cs =
    (j : ℕ) (d : BlockRef)
    → get_elem? cs j ≡ some d
    → Holds fork d
    → (i : ℕ) × (c : BlockRef) × (i < j) × (get_elem? cs i ≡ some c) × Clashes fork c

-- `k` is the index of the newest block that a rollback may keep.
pub record IsAncestor (current fork : List BlockRef) (k : ℕ) : Type 0 where
  pub block : BlockRef
  pub found : get_elem? current k ≡ some block
  pub shared : Holds fork block
  pub clean : (j : ℕ) (d : BlockRef) → j ≤ k → get_elem? current j ≡ some d → Agrees fork d
  pub newest : Behind fork (drop (suc k) current)

pub block_at-Holds :
    (fs : List BlockRef) (f : BlockRef) → Ascending fs → Holds fs f → block_at f.number fs ≡ some f
unfolding block_at
block_at-Holds [] f a h = absurd h
block_at-Holds (g ∷ fs) f a (inl e) = ground arith
block_at-Holds (g ∷ fs) f a (inr h) =
    ground (arith, block_at-Holds fs f a.1 h, Above-Holds g.number f fs a.0 h)

pub Holds-block_at :
    (n : ℕ) (fs : List BlockRef) (f : BlockRef)
    → block_at n fs ≡ some f
    → Holds fs f × (f.number ≡ n)
unfolding block_at
Holds-block_at n [] f e = cc
Holds-block_at n (g ∷ fs) f e = elim (Bool-cases (g.number == n)) [
  | inl hit ↦ ground arith
  | inr miss ↦ let r = Holds-block_at n fs f (ground arith) in (inr r.0, r.1)
]
