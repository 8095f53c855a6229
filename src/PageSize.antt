-- ===== src/PageSize.antt =====
-- internal/ingestion/pagesize.go: the feedback controller for the page size, on uint64 numbers that
-- wrap at 2 ^ 64.
pub mod Bounds
pub mod Converge
mod Tests
use sqd_go.Base.{
  ℕ, zero, suc, ◌+◌, ◌*◌, ◌/◌, ◌%◌, ◌^◌, Bool, true, false, ltb, leb, ◌==◌, if◌then◌else◌,
}

abbrev pub word : ℕ → ℕ
word n = n % 2 ^ 64

pub clamp_uint64 : ℕ → ℕ → ℕ → ℕ
clamp_uint64 v lo hi = if ltb v lo then lo else if ltb hi v then hi else v

-- The three resets at the head of `nextPageSize`.
abbrev pub min_page : ℕ → ℕ
min_page lo = if lo == 0 then 1 else lo

abbrev pub max_page : ℕ → ℕ → ℕ
max_page lo hi = if ltb hi (min_page lo) then min_page lo else hi

abbrev pub start_page : ℕ → ℕ → ℕ
start_page current lo = if current == 0 then min_page lo else current

-- The `switch`.
sized : ℕ → ℕ → ℕ → Bool → ℕ → ℕ → ℕ
unfolding clamp_uint64
sized current requested span failed lo hi =
    if failed
    then clamp_uint64 (current / 2) lo hi
    else if span == 0
    then clamp_uint64 current lo hi
    else if leb requested span
    then clamp_uint64 (word (current * 2)) lo hi
    else clamp_uint64 (word (span + span / 4)) lo hi

pub next_page_size : ℕ → ℕ → ℕ → Bool → ℕ → ℕ → ℕ
unfolding sized
next_page_size current requested span failed lo hi =
    sized (start_page current lo) requested span failed (min_page lo) (max_page lo hi)

-- `clampPageForLatency`. Its `scaled` is the float64 product `span * targetDur / fetchDur`, cut to
-- a uint64; the float arithmetic is a parameter, and durations are in nanoseconds from a positive
-- number up, so that `targetDur <= 0` is `target == 0`.
module _ (scale : ℕ → ℕ → ℕ → ℕ) where
  pub clamp_page_for_latency : ℕ → ℕ → ℕ → ℕ → ℕ → ℕ
  unfolding clamp_uint64
  clamp_page_for_latency page span fetch target lo =
      if target == 0
      then page
      else if leb fetch target
      then page
      else if span == 0
      then page
      else let scaled = scale span target fetch in
        if leb page scaled then page else clamp_uint64 scaled lo page
