-- ===== src/PageSize/Bounds.antt =====
-- The controller stays within its bounds, and the latency clamp never grows a page.
use sqd_go.Base.{ℕ, ◌+◌, ◌*◌, ◌/◌, ◌≤◌, ◌≡◌, ◌⊎◌, Bool, arith}
use sqd_go.PageSize.{
  word, clamp_uint64, min_page, max_page, start_page, sized, next_page_size, clamp_page_for_latency,
}

clamp-bounds : (v lo hi : ℕ) → lo ≤ hi → (lo ≤ clamp_uint64 v lo hi) × (clamp_uint64 v lo hi ≤ hi)
unfolding clamp_uint64
clamp-bounds v lo hi h = ground arith

resets : (lo hi : ℕ) → (min_page lo ≤ max_page lo hi) × (1 ≤ min_page lo) × (lo ≤ min_page lo)
resets lo hi = ground arith

sized-bounds :
    (current requested span : ℕ) (failed : Bool) (lo hi : ℕ)
    → lo ≤ hi
    → (lo ≤ sized current requested span failed lo hi)
      × (sized current requested span failed lo hi ≤ hi)
unfolding sized
sized-bounds current requested span failed lo hi h = ground (
  arith,
  clamp-bounds (current / 2) lo hi h,
  clamp-bounds current lo hi h,
  clamp-bounds (word (current * 2)) lo hi h,
  clamp-bounds (word (span + span / 4)) lo hi h,
)

-- Whatever the last response was, the next page has at least one block and at least the smallest size;
-- and where the largest size is neither zero nor below the smallest, it is at most that.
next_page_size-bounds :
    (current requested span : ℕ) (failed : Bool) (lo hi : ℕ)
    → (1 ≤ next_page_size current requested span failed lo hi)
      × (lo ≤ next_page_size current requested span failed lo hi)
      × (1 ≤ hi → lo ≤ hi → next_page_size current requested span failed lo hi ≤ hi)
unfolding next_page_size
next_page_size-bounds current requested span failed lo hi =
    let r = resets lo hi in
    let b =
      sized-bounds (start_page current lo) requested span failed (min_page lo) (max_page lo hi)
        r.0 in
    (omega arith, omega arith, λ p q. omega (arith, largest lo hi p q))
  where
    largest : (a b : ℕ) → 1 ≤ b → a ≤ b → max_page a b ≤ b
    largest a b p q = ground arith

-- For a page that is not below the smallest size, the latency clamp returns a size between the two,
-- whatever the float product is; and where no target is set, the fetch was within it, or it covered
-- no block, it returns the page.
pub clamp_page_for_latency-bounds :
    (scale : ℕ → ℕ → ℕ → ℕ) (page span fetch target lo : ℕ)
    → lo ≤ page
    → (lo ≤ clamp_page_for_latency scale page span fetch target lo)
      × (clamp_page_for_latency scale page span fetch target lo ≤ page)
      × ((target ≡ 0) ⊎ (fetch ≤ target) ⊎ (span ≡ 0)
          → clamp_page_for_latency scale page span fetch target lo ≡ page)
unfolding clamp_page_for_latency
clamp_page_for_latency-bounds scale page span fetch target lo h =
    let b = clamp-bounds (scale span target fetch) lo page h in
    (ground (arith, b), ground (arith, b), idle)
  where
    idle :
        (target ≡ 0) ⊎ (fetch ≤ target) ⊎ (span ≡ 0)
        → clamp_page_for_latency scale page span fetch target lo ≡ page
    idle e = ground arith
