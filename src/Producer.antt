-- ===== src/Producer.antt =====
-- internal/ingestion/ingestion.go: which blocks the producer asks for next, and what its loop does with
-- the reply, on the path without the parallel fetcher. A label of a range, a text in the code, is `Label`.
-- The ranges are of uint64, and sums wrap at 2 ^ 64. The parent hash of a request is left to the portal.
pub mod Requests
pub mod Ranges
pub mod Answers
pub mod Finish
mod Tests
use sqd_go.Base.{
  ℕ, zero, suc, ◌+◌, ◌-◌, ◌%◌, ◌^◌, Bool, true, false, ◌&&◌, ◌||◌, Option, none, some, ltb, leb,
  ◌==◌, if◌then◌else◌, not, List,
}
use sqd_go.Chain.{Head, BlockRef}
use sqd_go.PageSize.{word, next_page_size, clamp_page_for_latency}

pub data Label : Type 0 where
  blocks : ℕ → ℕ → Label
  tail : ℕ → Label

pub record Request : Type 0 where
  pub to_block : Option ℕ
  pub label : Label

-- `effectiveEndBlock != nil && n > *effectiveEndBlock`
abbrev pub past_end : ℕ → Option ℕ → Bool
past_end n none = false
past_end n (some end) = ltb end n

-- `if effectiveEndBlock != nil && toBlock > *effectiveEndBlock { toBlock = *effectiveEndBlock }`
abbrev pub cut : ℕ → Option ℕ → ℕ
cut n none = n
cut n (some end) = if ltb end n then end else n

-- The range of a page from `current` on. A refusal is `none`.
abbrev pub page_range : ℕ → ℕ → Option ℕ → Option Request
page_range current page end =
    let to_block = cut (word (current + page - 1)) end in
    if ltb to_block current
    then none
    else some (record { to_block = some to_block; label = blocks current to_block })

-- The label of a range with no page: up to the end, or to the tail.
abbrev pub open_label : ℕ → Option ℕ → Label
open_label current none = tail current
open_label current (some end) = blocks current end

pub next_request_range : ℕ → ℕ → Option ℕ → Bool → Option Request
next_request_range current page end cursor_mode =
    if past_end current end
    then none
    else if cursor_mode
    then some (record { to_block = end; label = open_label current end })
    else if page == 0
    then some (record { to_block = none; label = open_label current end })
    else page_range current page end

abbrev pub effective_page_size : ℕ → ℕ → Bool → ℕ
effective_page_size page adaptive cursor_mode =
    if (page == 0) && cursor_mode then adaptive else page

pub next_producer_request_range : ℕ → ℕ → ℕ → ℕ → Option ℕ → Bool → Option Request
unfolding next_request_range
next_producer_request_range current page adaptive last_finalized end cursor_mode =
    let effective = effective_page_size page adaptive cursor_mode in
    if past_end current end
    then none
    else if ltb 0 effective
        && cursor_mode
        && ((last_finalized == 0) || ltb (word (current + effective)) last_finalized)
    then page_range current effective end
    else next_request_range current page end cursor_mode

unfoldable pub empty_cursor_checkpoint : ℕ → Head → Option ℕ
empty_cursor_checkpoint current head = elim head.finalized [
  | none ↦ none
  | some f ↦ if ltb f.number current then none else some f.number
]

unfoldable pub should_wait_for_empty_cursor_response : Option ℕ → Bool
should_wait_for_empty_cursor_response none = true
should_wait_for_empty_cursor_response (some end) = false

unfoldable pub min_end_block : Option ℕ → ℕ → ℕ
min_end_block none candidate = candidate
min_end_block (some current) candidate = if ltb current candidate then current else candidate

unfoldable pub max : ℕ → ℕ → ℕ
max a b = if ltb b a then a else b

abbrev min_adaptive_page_size : ℕ
min_adaptive_page_size = 5000

abbrev max_adaptive_page_size : ℕ
max_adaptive_page_size = 100000

-- The settings that do not change, and the variables of the producer's loop. Durations are those of
-- `clamp_page_for_latency`.
pub record Settings : Type 0 where
  pub page_size : ℕ
  pub end_block : Option ℕ
  pub cursor_mode : Bool
  pub target_duration : ℕ

pub record Producer : Type 0 where
  pub block : ℕ
  pub adaptive_page_size : ℕ
  pub last_finalized : ℕ

-- What a fetch gives: a `ForkError`, with its blocks; another error, which is tried again; an answer
-- without a body, with the number of its finalized head; one whose body the parser refuses; or a page, with
-- the number of its finalized head, that of its last decoded block where there is one, and how long the
-- fetch took.
pub data Reply : Type 0 where
  failed : Reply
  forked : List BlockRef → Reply
  empty : Option ℕ → Reply
  unreadable : Option ℕ → Reply
  page : Option ℕ → Option ℕ → ℕ → Reply

-- `producerSignal`, which the producer sends as it returns: with a fork, with an error, or with neither.
pub data ProducerSignal : Type 0 where
  fork_err : List BlockRef → ProducerSignal
  parse_err : ProducerSignal
  no_err : ProducerSignal

-- How a round of the loop ends: it goes on; it goes on after the finalized head of an empty answer went to
-- the consumer; or the producer returns.
pub data Round : Type 0 where
  continued : Producer → Round
  polled : Option ℕ → Producer → Round
  returned : ProducerSignal → Producer → Round

module _ (scale : ℕ → ℕ → ℕ → ℕ) (s : Settings) where
  pub back_off : Producer → Producer
  back_off p =
      if s.page_size == 0
      then record p {
        adaptive_page_size =
            next_page_size p.adaptive_page_size p.adaptive_page_size 0 true min_adaptive_page_size
              max_adaptive_page_size;
      }
      else p

  pub see_finalized : Option ℕ → Producer → Producer
  see_finalized none p = p
  see_finalized (some n) p = if ltb p.last_finalized n then record p { last_finalized = n } else p

  -- The page of the next request, after one that covered `span` blocks.
  pub adapt : ℕ → ℕ → ℕ → ℕ
  adapt adaptive span duration =
      clamp_page_for_latency scale
        (next_page_size adaptive adaptive span false min_adaptive_page_size max_adaptive_page_size)
        span duration s.target_duration min_adaptive_page_size

  pub advance : Option ℕ → ℕ → Producer → Producer
  unfolding adapt
  advance none duration p = record p { block = word (p.block + 1) }
  advance (some last) duration p =
      let next = word (last + 1) in
      if (s.page_size == 0) && ltb p.block next
      then record {
        block = next;
        adaptive_page_size = adapt p.adaptive_page_size (next - p.block) duration;
        last_finalized = p.last_finalized;
      }
      else record p { block = next }

  -- `len(raw) == 0`
  take_empty : Option ℕ → Producer → Round
  unfolding should_wait_for_empty_cursor_response
  take_empty finalized p =
      if s.cursor_mode
      then if not (should_wait_for_empty_cursor_response s.end_block)
        then returned no_err p
        else polled finalized p
      else returned no_err p

  pub take_reply : Reply → Producer → Round
  unfolding back_off see_finalized advance take_empty
  take_reply failed p = continued (back_off p)
  take_reply (forked previous) p =
      if s.cursor_mode then returned (fork_err previous) p else continued (back_off p)
  take_reply (empty finalized) p = take_empty finalized (see_finalized finalized p)
  take_reply (unreadable finalized) p = returned parse_err (see_finalized finalized p)
  take_reply (page finalized last duration) p =
      continued (advance last duration (see_finalized finalized p))

  -- One round of the loop on the reply to its request.
  pub round : (ℕ → Option ℕ → Reply) → Producer → Round
  unfolding next_producer_request_range take_reply
  round portal p =
      elim (next_producer_request_range p.block s.page_size p.adaptive_page_size p.last_finalized
        s.end_block s.cursor_mode) [
          | none ↦ returned no_err p
          | some request ↦ take_reply (portal p.block request.to_block) p
        ]

  -- At most `n` rounds of the loop: the signal and the producer where it returns, `none` where it does not
  -- within them. Each round has its own portal, by the rounds that are left after it.
  pub produce : ℕ → (ℕ → ℕ → Option ℕ → Reply) → Producer → Option (ProducerSignal × Producer)
  unfolding round
  produce zero portal p = none
  produce (suc n) portal p = elim (round (portal n) p) [
    | continued p' ↦ produce n portal p'
    | polled f p' ↦ produce n portal p'
    | returned signal p' ↦ some (signal, p')
  ]
