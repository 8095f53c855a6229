-- ===== src/PageSize/Tests.antt =====
-- The theorems on the page size at concrete sizes.
use sqd_go.Base.{ℕ, ◌≡◌, ◌≤◌, ◌+◌, ◌*◌, ◌/◌, ◌⊎◌, refl, false, arith}
use sqd_go.PageSize.{next_page_size, clamp_page_for_latency}
use sqd_go.PageSize.Bounds.{clamp_page_for_latency-bounds}
use sqd_go.PageSize.Converge.{ask_times, ask_times-converges}

doubles : next_page_size 1000 1000 1000 false 100 5000 ≡ 2000
unfolding next_page_size
doubles = refl

abbrev target : ℕ
target = 6

abbrev span : ℕ
span = 1000

abbrev scaled : ℕ → ℕ → ℕ → ℕ
scaled span target fetch = span * target / fetch

clamp_page_for_latency-bounds_example :
    (100 ≤ clamp_page_for_latency scaled 2000 1000 12 6 100)
    × (clamp_page_for_latency scaled 2000 1000 12 6 100 ≤ 2000)
    × ((target ≡ 0) ⊎ (12 ≤ target) ⊎ (span ≡ 0)
        → clamp_page_for_latency scaled 2000 1000 12 6 100 ≡ 2000)
clamp_page_for_latency-bounds_example =
    clamp_page_for_latency-bounds scaled 2000 1000 12 6 100 (omega arith)

ask_times-converges_example : ask_times 400 100 5000 4 100 ≡ 400 + 400 / 4
ask_times-converges_example =
    ask_times-converges 400 100 5000 (omega arith) (omega arith) (omega arith) (omega arith)
      (omega arith) 3 100 (omega arith) (omega arith)
