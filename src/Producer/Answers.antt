-- ===== src/Producer/Answers.antt =====
-- What one round of the producer does with what the portal answers.
use sqd_go.Base.{
  ℕ, ◌+◌, ◌^◌, ◌≤◌, ◌<◌, ◌≡◌, refl, inl, inr, Bool, true, ◌&&◌, Bool-cases, Option, none, some,
  arith, ltb, ◌==◌, List,
}
use sqd_go.Chain.{BlockRef}
use sqd_go.PageSize.{word}
use sqd_go.Producer.{
  Settings, Producer, Reply, forked, empty, unreadable, page, ProducerSignal, fork_err, parse_err,
  no_err, Round, continued, returned, see_finalized, advance, take_reply, take_empty,
  should_wait_for_empty_cursor_response,
}

-- What the portal answers to a request from a block on: a page with blocks from there on, or with none of
-- them, no body, one that does not parse, or, with cursors, a fork.
pub data Answered (cursor_mode : Bool) (from : ℕ) : Reply → Type 0 where
  no_body : (finalized : Option ℕ) → Answered cursor_mode from (empty finalized)
  garbled : (finalized : Option ℕ) → Answered cursor_mode from (unreadable finalized)
  fork :
      (previous : List BlockRef) → cursor_mode ≡ true → Answered cursor_mode from (forked previous)
  blockless :
      (finalized : Option ℕ) (duration : ℕ)
      → Answered cursor_mode from (page finalized none duration)
  served :
      (finalized : Option ℕ) (last duration : ℕ)
      → from ≤ last
      → last + 1 < 2 ^ 64
      → Answered cursor_mode from (page finalized (some last) duration)

-- Why the producer returns, with what signal and at which cursor: this is above the end, or the portal
-- answered a request from it with no body, with one that does not parse, or with a fork.
pub data Ended (portal : ℕ → ℕ → Option ℕ → Reply) (end : ℕ)
    : ProducerSignal → Producer → Type 0 where
  past : (p : Producer) → end < p.block → Ended portal end no_err p
  bodiless :
      (p : Producer) (n : ℕ) (to_block finalized : Option ℕ)
      → portal n p.block to_block ≡ empty finalized
      → Ended portal end no_err p
  refused :
      (p : Producer) (n : ℕ) (to_block finalized : Option ℕ)
      → portal n p.block to_block ≡ unreadable finalized
      → Ended portal end parse_err p
  diverted :
      (p : Producer) (n : ℕ) (to_block : Option ℕ) (previous : List BlockRef)
      → portal n p.block to_block ≡ forked previous
      → Ended portal end (fork_err previous) p

module _ (scale : ℕ → ℕ → ℕ → ℕ) (s : Settings) (portal : ℕ → ℕ → Option ℕ → Reply) where
  see_finalized-block : (f : Option ℕ) (p : Producer) → (see_finalized scale s f p).block ≡ p.block
  unfolding see_finalized
  see_finalized-block none p = refl
  see_finalized-block (some n) p = ground arith

  advance-block :
      (last d : ℕ) (p : Producer) → (advance scale s (some last) d p).block ≡ word (last + 1)
  unfolding advance
  advance-block last d p = elim (Bool-cases ((s.page_size == 0) && ltb p.block (word (last + 1)))) [
    | inl yes_ ↦ rw yes_ refl
    | inr no_ ↦ rw no_ refl
  ]

  -- The settings name an end and a page, and no page up to the end wraps.
  pub record Bounded (end : ℕ) : Type 0 where
    pub ends : s.end_block ≡ some end
    pub paged_by : 0 < s.page_size
    pub fits : end + s.page_size < 2 ^ 64

  -- A round moves the cursor up, or the producer returns, its cursor not moved.
  pub data Moved (end : ℕ) (p : Producer) : Round → Type 0 where
    up : (p' : Producer) → p.block < p'.block → p'.block < 2 ^ 64 → Moved end p (continued p')
    over :
        (signal : ProducerSignal) (p' : Producer)
        → Ended portal end signal p'
        → p.block ≤ p'.block
        → Moved end p (returned signal p')

  take_empty-returned :
      (end : ℕ) (f : Option ℕ) (p : Producer)
      → Bounded end
      → take_empty scale s f p ≡ returned no_err p
  unfolding take_empty should_wait_for_empty_cursor_response
  take_empty-returned end f p b = elim (Bool-cases s.cursor_mode) [
    | inl yes_ ↦ rw (yes_, b.ends) refl
    | inr no_ ↦ rw no_ refl
  ]

  pub moves :
      (end n : ℕ) (to_block : Option ℕ) (r : Reply) (p : Producer)
      → Bounded end
      → portal n p.block to_block ≡ r
      → Answered s.cursor_mode p.block r
      → p.block + 1 < 2 ^ 64
      → Moved end p (take_reply scale s r p)
  unfolding take_reply advance
  moves end n t _ p b e (no_body f) l =
      let same = see_finalized-block f p in
      rw (take_empty-returned end f (see_finalized scale s f p) b)
        (over no_err _ (bodiless _ n t f (rw same e)) (rw same (omega arith)))
  moves end n t _ p b e (garbled f) l =
      let same = see_finalized-block f p in
      over parse_err _ (refused _ n t f (rw same e)) (rw same (omega arith))
  moves end n t _ p b e (fork previous m) l =
      rw m (over (fork_err previous) p (diverted p n t previous e) (omega arith))
  moves end n t _ p b e (blockless f d) l =
      let same = see_finalized-block f p in
      let next : word (p.block + 1) ≡ p.block + 1 = ground arith in
      up _ (rw (same, next) (omega arith)) (rw (same, next) l)
  moves end n t _ p b e (served f last d from_ small) l =
      let block = advance-block last d (see_finalized scale s f p) in
      let next : word (last + 1) ≡ last + 1 = ground arith in
      up _ (rw (block, next) (omega arith)) (rw (block, next) small)
