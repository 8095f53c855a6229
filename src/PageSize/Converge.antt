-- ===== src/PageSize/Converge.antt =====
-- How the controller moves: failures walk the page down, full pages walk it up, short ones aim at the
-- cap.
use native.Mathlib.Nat.{pow-suc, one-le-pow}
use sqd_go.Base.{
  ℕ, zero, suc, min, Bool-cases, inl, inr, ◌+◌, ◌-◌, ◌*◌, ◌/◌, ◌^◌, ◌≤◌, ◌<◌, ◌≡◌, refl, ap, true,
  false, arith, ltb, leb,
}
use sqd_go.PageSize.{next_page_size}

-- `n` failures in a row.
fail_times : ℕ → ℕ → ℕ → ℕ → ℕ
fail_times zero page lo hi = page
fail_times (suc n) page lo hi = fail_times n (next_page_size page page 0 true lo hi) lo hi

fail_step :
    (page lo hi : ℕ)
    → 0 < lo
    → lo ≤ page
    → page ≤ hi
    → (next_page_size page page 0 true lo hi ≤ lo + (page - lo) / 2)
      × (lo ≤ next_page_size page page 0 true lo hi)
      × (next_page_size page page 0 true lo hi ≤ hi)
unfolding next_page_size
fail_step page lo hi p r s = ground arith

-- If a page is less than `2 ^ n` above a positive smallest size, then `n` failures in a row bring it
-- down to that size.
fail_times-reaches_min :
    (n page lo hi : ℕ)
    → 0 < lo
    → lo ≤ page
    → page ≤ hi
    → page - lo < 2 ^ n
    → fail_times n page lo hi ≡ lo
unfolding fail_times
fail_times-reaches_min zero page lo hi p r s small = omega arith
fail_times-reaches_min (suc n) page lo hi p r s small =
    let step = fail_step page lo hi p r s in
    fail_times-reaches_min n (next_page_size page page 0 true lo hi) lo hi p step.1 step.2
      (omega (arith, pow-suc 2 n))

-- A server that answers a request for `page` blocks with `min page cap` of them, asked `n` times.
module _ (cap lo hi : ℕ) where
  abbrev pub ask : ℕ → ℕ
  ask page = next_page_size page page (min page cap) false lo hi

  pub ask_times : ℕ → ℕ → ℕ
  ask_times zero page = page
  ask_times (suc n) page = ask_times n (ask page)

  module _ (lo_pos : 0 < lo) (four : 4 ≤ cap) (fits_lo : lo ≤ cap + cap / 4)
      (fits_hi : cap + cap / 4 ≤ hi) (no_wrap : hi < 2 ^ 63) where
    over_cap : (page : ℕ) → cap < page → ask page ≡ cap + cap / 4
    unfolding next_page_size
    over_cap page over = ground arith

    under_cap : (page : ℕ) → 0 < page → page ≤ cap → lo ≤ page → ask page ≡ min (page * 2) hi
    unfolding next_page_size
    under_cap page p under above = ground arith

    stays : (n : ℕ) → ask_times n (cap + cap / 4) ≡ cap + cap / 4
    unfolding ask_times
    stays zero = refl
    stays (suc n) = rw (over_cap (cap + cap / 4) (omega arith)) (stays n)

    doubled : (n page : ℕ) → cap < page * 2 ^ suc n → cap < min (page * 2) hi * 2 ^ n
    doubled n page enough =
        let double : page * 2 ^ suc n ≡ page * 2 * 2 ^ n =
          omega (arith, ap (λ (t : ℕ). page * t) (pow-suc 2 n)) in
        let one : 1 ≤ 2 ^ n = one-le-pow n 2 (omega arith) in
        let top : hi ≤ hi * 2 ^ n = grind arith in
        elim (Bool-cases (leb (page * 2) hi)) [
          | inl le ↦ let e : min (page * 2) hi ≡ page * 2 = ground arith in rw e (omega arith)
          | inr gt ↦ let e : min (page * 2) hi ≡ hi = ground arith in rw e (omega arith)
        ]

    -- If the server answers each request with at most `cap` blocks, four or more, if `cap + cap / 4` is
    -- within the bounds of the page, and the largest page is below `2 ^ 63`, then a page that `n`
    -- doublings bring above the cap is `cap + cap / 4` after `n + 1` answers.
    pub ask_times-converges :
        (n page : ℕ) → lo ≤ page → cap < page * 2 ^ n → ask_times (suc n) page ≡ cap + cap / 4
    unfolding ask_times
    ask_times-converges zero page above enough = over_cap page (omega arith)
    ask_times-converges (suc n) page above enough = elim (Bool-cases (ltb cap page)) [
      | inl over ↦ rw (over_cap page (ground arith)) (stays (suc n))
      | inr under ↦
          rw (under_cap page (omega arith) (ground arith) above)
            (ask_times-converges n (min (page * 2) hi) (omega arith) (doubled n page enough))
    ]
