-- ===== src/ColdFilter/Marks.antt =====
-- Marks in a block: what is set stays set, and what was set is found.
use sqd_go.Base.{
  ℕ, zero, suc, ◌+◌, ◌/◌, ◌%◌, ◌≡◌, refl, true, false, ◌&&◌, List, [], ◌∷◌, inl, inr, Bool-cases,
  ◌==◌, ==_iff,
}
use sqd_go.ColdFilter.{
  Block, probe, marked, mark_loop, check_loop, split_bit, split_mark, split_check,
}

-- Every bit of the first block is set in the second.
abbrev pub Grows : Block → Block → Type 0
Grows blk blk' = (w b : ℕ) → blk w b ≡ true → blk' w b ≡ true

marked-Grows : (w b : ℕ) (blk : Block) → Grows blk (marked w b blk)
marked-Grows w b blk w' b' h = elim (Bool-cases ((w' == w) && (b' == b))) [
  | inl hit ↦ rw hit
  | inr miss ↦ rw miss h
]

marked-own : (w b : ℕ) (blk : Block) → marked w b blk w b ≡ true
marked-own w b blk =
    let same_word : (w == w) ≡ true = (==_iff w w).1 refl in
    let same_bit : (b == b) ≡ true = (==_iff b b).1 refl in rw (same_word, same_bit)

pub mark_loop-Grows : (h g i n : ℕ) (blk : Block) → Grows blk (mark_loop h g i n blk)
unfolding mark_loop
mark_loop-Grows h g i zero blk w b e = e
mark_loop-Grows h g i (suc n) blk w b e =
    mark_loop-Grows h g (i + 1) n (marked (probe h g i / 64) (probe h g i % 64) blk) w b
      (marked-Grows (probe h g i / 64) (probe h g i % 64) blk w b e)

pub check_loop-Grows :
    (h g i n : ℕ) (blk blk' : Block)
    → Grows blk blk'
    → check_loop h g i n blk ≡ true
    → check_loop h g i n blk' ≡ true
unfolding check_loop
check_loop-Grows h g i zero blk blk' grows e = refl
check_loop-Grows h g i (suc n) blk blk' grows e =
    elim (Bool-cases (blk (probe h g i / 64) (probe h g i % 64))) [
      | inl hit ↦ rw (grows _ _ hit) (check_loop-Grows h g (i + 1) n blk blk' grows (rw hit at e))
      | inr miss ↦ cc (rw miss at e)
    ]

pub mark-check : (h g i n : ℕ) (blk : Block) → check_loop h g i n (mark_loop h g i n blk) ≡ true
unfolding check_loop mark_loop
mark-check h g i zero blk = refl
mark-check h g i (suc n) blk =
    let first = marked (probe h g i / 64) (probe h g i % 64) blk in
    rw
      (mark_loop-Grows h g (i + 1) n first _ _
        (marked-own (probe h g i / 64) (probe h g i % 64) blk))
      (mark-check h g (i + 1) n first)

pub split_mark-Grows :
    (h : ℕ) (salts : List ℕ) (j : ℕ) (blk : Block) → Grows blk (split_mark h salts j blk)
unfolding split_mark
split_mark-Grows h [] j blk w b e = e
split_mark-Grows h (salt ∷ salts) j blk w b e =
    split_mark-Grows h salts (j + 1) (marked j (split_bit h salt) blk) w b
      (marked-Grows j (split_bit h salt) blk w b e)

split_check-missed :
    (h : ℕ) (salts : List ℕ) (j : ℕ) (blk : Block) → split_check h salts j blk true ≡ false
unfolding split_check
split_check-missed h [] j blk = refl
split_check-missed h (salt ∷ salts) j blk = split_check-missed h salts (j + 1) blk

pub split_check-Grows :
    (h : ℕ) (salts : List ℕ) (j : ℕ) (blk blk' : Block)
    → Grows blk blk'
    → split_check h salts j blk false ≡ true
    → split_check h salts j blk' false ≡ true
unfolding split_check
split_check-Grows h [] j blk blk' grows e = refl
split_check-Grows h (salt ∷ salts) j blk blk' grows e =
    elim (Bool-cases (blk j (split_bit h salt))) [
      | inl hit ↦
          rw (grows _ _ hit) (split_check-Grows h salts (j + 1) blk blk' grows (rw hit at e))
      | inr miss ↦ cc (rw (miss, split_check-missed h salts (j + 1) blk) at e)
    ]

pub split_mark-check :
    (h : ℕ) (salts : List ℕ) (j : ℕ) (blk : Block)
    → split_check h salts j (split_mark h salts j blk) false ≡ true
unfolding split_check split_mark
split_mark-check h [] j blk = refl
split_mark-check h (salt ∷ salts) j blk =
    let first = marked j (split_bit h salt) blk in
    rw (split_mark-Grows h salts (j + 1) first _ _ (marked-own j (split_bit h salt) blk))
      (split_mark-check h salts (j + 1) first)
