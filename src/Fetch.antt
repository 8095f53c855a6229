-- ===== src/Fetch.antt =====
-- internal/ingestion/parallel_fetch.go: how the parallel fetcher divides a range of blocks into units,
-- hands them to its workers and puts their responses in order. A function that runs under `p.mu` is
-- one step; a round of a loop that ends in `p.cond.Wait()` gives `waiting`. Sums of uint64 wrap at
-- 2 ^ 64. Requests, the rate limiter and the goroutines are left out.
pub mod Units
mod Tests
use sqd_go.Base.{
  ℕ, zero, suc, ◌+◌, ◌-◌, ◌*◌, ◌/◌, ◌%◌, ◌^◌, min, Bool, true, false, not, ◌&&◌, ◌||◌, Option, none,
  some, List, [], ◌∷◌, ◌++◌, ltb, leb, ◌==◌, if◌then◌else◌,
}

pub record BlockRange : Type 0 where
  pub from : ℕ
  pub to : ℕ

-- A chunk without its raw bytes and its header.
pub record FetchChunk : Type 0 where
  pub seq : ℕ
  pub covered_to : ℕ
  pub failed : Bool

-- The fields that the steps read; `ready` lists the chunks by their numbers.
pub record Prefetcher : Type 0 where
  pub end_block : ℕ
  pub workers : ℕ
  pub max_ahead : ℕ
  pub next_block : ℕ
  pub gap_span : ℕ
  pub beast_mode : Bool
  pub ready : List FetchChunk
  pub next_emit : ℕ
  pub gaps : List BlockRange
  pub active_workers : ℕ
  pub stop_claim : Bool
  pub done_wg : Bool

abbrev adaptive_gap_min : ℕ
adaptive_gap_min = 100

abbrev adaptive_gap_max : ℕ
adaptive_gap_max = 131072

abbrev pub word : ℕ → ℕ
word n = n % 2 ^ 64

-- `a - 1` on uint64.
abbrev pub pred_word : ℕ → ℕ
pred_word n = word (n + (2 ^ 64 - 1))

pub current_gap_span : Prefetcher → ℕ
current_gap_span p =
    if ltb p.gap_span adaptive_gap_min
    then adaptive_gap_min
    else if ltb adaptive_gap_max p.gap_span
    then adaptive_gap_max
    else p.gap_span

-- The new estimate; the retries of `CompareAndSwap` start again from the value that another worker
-- left.
next_gap_span : ℕ → ℕ → ℕ
next_gap_span old observed =
    let next = word (old - old / 4 + observed / 4) in
    if ltb next adaptive_gap_min
    then adaptive_gap_min
    else if ltb adaptive_gap_max next
    then adaptive_gap_max
    else next

unfoldable pub update_gap_span : Prefetcher → ℕ → Prefetcher
unfolding next_gap_span
update_gap_span p observed =
    if observed == 0 then p else record p { gap_span = next_gap_span p.gap_span observed }

-- The units of the loop in `enqueueGaps`, on fuel.
pub gap_units : ℕ → ℕ → ℕ → ℕ → List BlockRange
gap_units zero span cur to = []
gap_units (suc fuel) span cur to =
    let end_ = min (pred_word (cur + span)) to in
    let rest = gap_units fuel span (word (end_ + 1)) to in
    if leb cur to then record { from = cur; to = end_ } ∷ rest else []

-- `sort.Slice` by the start of a unit.
pub insert_gap : BlockRange → List BlockRange → List BlockRange
insert_gap g [] = g ∷ []
insert_gap g (r ∷ rs) = if leb g.from r.from then g ∷ r ∷ rs else r ∷ insert_gap g rs

pub sort_gaps : List BlockRange → List BlockRange
unfolding insert_gap
sort_gaps [] = []
sort_gaps (g ∷ gs) = insert_gap g (sort_gaps gs)

abbrev pub at_least_one : ℕ → ℕ
at_least_one n = if ltb n 1 then 1 else n

-- Each round moves `cur` on, so as many rounds as there are blocks are enough.
pub enqueue_gaps : Prefetcher → ℕ → ℕ → Prefetcher
unfolding gap_units sort_gaps
enqueue_gaps p from to =
    let units = gap_units (to + 1 - from) (at_least_one (current_gap_span p)) from to in
    record p { gaps = sort_gaps (p.gaps ++ units) }

unfoldable pub window_limit : Prefetcher → ℕ
window_limit p =
    let w = word (current_gap_span p * p.workers * 8) in
    if ltb w p.max_ahead then p.max_ahead else w

pub data Claim : Type 0 where
  stopped waiting : Claim
  unit : BlockRange → Claim

-- The stride is a quarter above the estimate, up to the largest.
pub stride : Prefetcher → ℕ
stride p =
    let s = current_gap_span p in
    if ltb adaptive_gap_max (s + s / 4) then adaptive_gap_max else s + s / 4

abbrev pub no_gaps : List BlockRange → Bool
no_gaps [] = true
no_gaps (g ∷ gs) = false

abbrev pub take_stride : Prefetcher → ℕ → Claim × Prefetcher
take_stride p to = (
  unit (record { from = p.next_block; to = to }),
  record p { next_block = word (to + 1); active_workers = p.active_workers + 1 },
)

pub claim_fresh : Prefetcher → ℕ → Claim × Prefetcher
claim_fresh p window =
    let from = p.next_block in
    if leb from p.end_block && leb from window
    then take_stride p (min (pred_word (from + stride p)) p.end_block)
    else if ltb p.end_block from && no_gaps p.gaps && (p.active_workers == 0)
    then (stopped, record p { stop_claim = true })
    else (waiting, p)

pub claim_gap : Prefetcher → ℕ → List BlockRange → Claim × Prefetcher
unfolding claim_fresh
claim_gap p window [] = claim_fresh p window
claim_gap p window (g ∷ gs) =
    if leb g.from window
    then (unit g, record p { gaps = gs; active_workers = p.active_workers + 1 })
    else claim_fresh p window

-- One round of `getWork`; `cancelled` is `ctx.Err() != nil`.
pub get_work : Prefetcher → Bool → Claim × Prefetcher
unfolding claim_gap
get_work p cancelled =
    if cancelled || p.stop_claim
    then (stopped, p)
    else if p.beast_mode && ltb 0 p.active_workers
    then (waiting, p)
    else claim_gap p (word (p.next_emit + window_limit p)) p.gaps

-- Each call balances an increment in `getWork`, so the count is not 0.
unfoldable pub finish_unit : Prefetcher → Prefetcher
finish_unit p = record p { active_workers = p.active_workers - 1 }

-- A chunk takes the place of one with its number.
without : ℕ → List FetchChunk → List FetchChunk
without n [] = []
without n (c ∷ cs) = if c.seq == n then without n cs else c ∷ without n cs

unfoldable pub deliver_chunk : Prefetcher → FetchChunk → Prefetcher
unfolding without
deliver_chunk p chunk = record p {
  ready = chunk ∷ without chunk.seq p.ready;
  stop_claim = p.stop_claim || chunk.failed;
}

chunk_at : ℕ → List FetchChunk → Option FetchChunk
chunk_at n [] = none
chunk_at n (c ∷ cs) = if c.seq == n then some c else chunk_at n cs

-- The chunk of the least number, if any is left.
least : Option FetchChunk → List FetchChunk → Option FetchChunk
least best [] = best
least none (c ∷ cs) = least (some c) cs
least (some b) (c ∷ cs) = if ltb c.seq b.seq then least (some c) cs else least (some b) cs

pub data Emission : Type 0 where
  ended asleep : Emission
  chunk : FetchChunk → Emission

emit : Prefetcher → FetchChunk → Emission × Prefetcher
unfolding without
emit p c =
    (chunk c, record p { ready = without c.seq p.ready; next_emit = word (c.covered_to + 1) })

last_chunks : Prefetcher → Option FetchChunk → Emission × Prefetcher
unfolding emit
last_chunks p none = (ended, p)
last_chunks p (some c) = emit p c

-- Where the chunk expected is not there.
not_ready : Prefetcher → Bool → Emission × Prefetcher
unfolding last_chunks least
not_ready p cancelled =
    if cancelled
    then (ended, p)
    else if p.done_wg
    then last_chunks p (least none p.ready)
    else (asleep, p)

next_from : Prefetcher → Bool → Option FetchChunk → Emission × Prefetcher
unfolding not_ready emit
next_from p cancelled none = not_ready p cancelled
next_from p cancelled (some c) = emit p c

-- One round of `Next`.
unfoldable pub next : Prefetcher → Bool → Emission × Prefetcher
unfolding next_from chunk_at
next p cancelled = next_from p cancelled (chunk_at p.next_emit p.ready)

abbrev finalized_catchup_margin : ℕ
finalized_catchup_margin = 512

abbrev pub above : ℕ → ℕ → Option ℕ
above from bound = if leb bound from then none else some bound

abbrev lower_end : ℕ → Option ℕ → ℕ
lower_end bound none = bound
lower_end bound (some e) = if ltb e bound then e else bound

unfoldable pub parallel_finalized_bound : Bool → ℕ → ℕ → Option ℕ → Option ℕ
parallel_finalized_bound true from last_finalized end_ =
    if leb last_finalized finalized_catchup_margin
    then none
    else above from (lower_end (last_finalized - finalized_catchup_margin) end_)
parallel_finalized_bound false from last_finalized none = none
parallel_finalized_bound false from last_finalized (some e) = above from e

unfoldable pub parallel_min_span : ℕ → ℕ → ℕ
parallel_min_span page_size workers =
    let min_pages = if ltb 2 (workers * 2) then workers * 2 else 2 in word (min_pages * page_size)
