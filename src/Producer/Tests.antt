-- ===== src/Producer/Tests.antt =====
-- Runs of the producer on small ranges.
use sqd_go.Base.{
  ℕ, ◌+◌, ◌-◌, ◌≤◌, ◌≡◌, refl, suc, true, false, Option, some, none, arith, if◌then◌else◌, ltb,
  Bool-cases, inl, inr,
}
use sqd_go.Producer.{
  Settings, Producer, Reply, page, empty, ProducerSignal, no_err, polled, take_reply, produce,
  next_producer_request_range, blocks,
}
use sqd_go.Producer.Answers.{Answered, no_body, blockless, served, Ended, Bounded}
use sqd_go.Producer.Finish.{produce-finishes}

asked_pages :
    next_producer_request_range 100 0 5000 8000 (some 9000) true
    ≡ some (record { to_block = some 5099; label = blocks 100 5099 })
unfolding next_producer_request_range
asked_pages = refl

abbrev settings : Settings
settings = record { page_size = 10; end_block = some 25; cursor_mode = false; target_duration = 0 }

abbrev started : Producer
started = record { block = 3; adaptive_page_size = 5000; last_finalized = 0 }

-- It serves the first block of each request below 20, a page without blocks from there on, and nothing at
-- 24 or above.
abbrev one_by_one : ℕ → ℕ → Option ℕ → Reply
one_by_one n from to_block =
    if ltb from 20
    then page none (some from) 1
    else if ltb from 24
    then page none none 1
    else empty (some 23)

one_by_one-Answered :
    (n from : ℕ) (to_block : Option ℕ) → Answered false from (one_by_one n from to_block)
one_by_one-Answered n from to_block = elim (Bool-cases (ltb from 20)) [
  | inl yes_ ↦ rw yes_ (served none from 1 (omega arith) (ground arith))
  | inr no_ ↦ elim (Bool-cases (ltb from 24)) [
    | inl yes_ ↦ rw (no_, yes_) (blockless none 1)
    | inr none_ ↦ rw (no_, none_) (no_body (some 23))
  ]
]

settings-Bounded : Bounded (λ a b c. a) settings one_by_one 25
settings-Bounded = record { ends = refl; paged_by = omega arith; fits = omega arith }

produce-finishes_example :
    (signal : ProducerSignal) × (p' : Producer) × (produce
        (λ a b c. a)
        settings
        (suc (25 + 1 - 3))
        one_by_one
        started
      ≡ some (signal, p'))
    × Ended one_by_one 25 signal p'
    × (started.block ≤ p'.block)
produce-finishes_example =
    produce-finishes (λ a b c. a) settings one_by_one 25 started settings-Bounded
      one_by_one-Answered

-- It asks again with no block served, and its cursor stays, where there is no end.
polls_again :
    take_reply
      (λ a b c. a)
      (record settings { end_block = none; cursor_mode = true })
      (empty (some 7))
      started
    ≡ polled (some 7) (record started { last_finalized = 7 })
unfolding take_reply
polls_again = refl

returns_early :
    produce (λ a b c. a) settings 25 one_by_one started
    ≡ some (no_err, record { block = 24; adaptive_page_size = 5000; last_finalized = 23 })
unfolding produce
returns_early = refl
