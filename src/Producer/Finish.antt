-- ===== src/Producer/Finish.antt =====
-- The producer's rounds up to an end block.
use sqd_go.Base.{
  ℕ, zero, suc, ◌+◌, ◌-◌, ◌^◌, ◌≤◌, ◌<◌, ◌≡◌, refl, inl, inr, Bool, true, false, Bool-cases, Option,
  none, some, arith, ltb,
}
use sqd_go.Producer.{
  Request, Settings, Producer, Reply, past_end, ProducerSignal, no_err, Round, returned,
  next_producer_request_range, round, produce,
}
use sqd_go.Producer.Requests.{
  page_in, Within, Asked, passed, wrapped, paged, whole, unbounded, to_tail,
}
use sqd_go.Producer.Ranges.{next_producer_request_range-Asked}
use sqd_go.Producer.Answers.{Answered, Ended, past, Bounded, Moved, up, over, moves}

effective_page :
    (size adaptive : ℕ) (cursor_mode : Bool) → 0 < size → page_in size adaptive cursor_mode ≡ size
effective_page size adaptive false p = refl
effective_page zero adaptive true p = absurd (omega arith)
effective_page (suc n) adaptive true p = refl

-- Below the end, and where the page does not wrap, there is a request.
is_some :
    {Paged : Type 0} {current size : ℕ} {end : Option ℕ} {cursor_mode : Bool} (r : Option Request)
    → Within current end
    → current + size < 2 ^ 64
    → Asked Paged current size end cursor_mode r
    → (request : Request) × (r ≡ some request)
is_some _ w f (passed n) = absurd (n w)
is_some _ w f (wrapped _ _ l) = absurd (omega arith)
is_some _ w f (paged t _ _ _ _) = (_, refl)
is_some _ w f (whole t _ _ _ _) = (_, refl)
is_some _ w f (unbounded t _ _ _ _) = (_, refl)
is_some _ w f (to_tail _ _ _) = (_, refl)

module _ (scale : ℕ → ℕ → ℕ → ℕ) (s : Settings) (portal : ℕ → ℕ → Option ℕ → Reply) where
  refuses :
      (end : ℕ) (p : Producer)
      → Bounded scale s portal end
      → end < p.block
      → next_producer_request_range p.block s.page_size p.adaptive_page_size p.last_finalized
          s.end_block s.cursor_mode
        ≡ none
  unfolding next_producer_request_range
  refuses end p b lt =
      let over_ : past_end p.block s.end_block ≡ true = rw b.ends (ground arith) in rw over_ refl

  -- The loop returns within so many rounds.
  abbrev Finishes : (end n : ℕ) → Producer → Type 0
  Finishes end n p =
      (signal : ProducerSignal) × (p' : Producer) × (produce scale s n portal p ≡ some (signal, p'))
      × Ended portal end signal p'
      × (p.block ≤ p'.block)

  asks :
      (end : ℕ) (p : Producer)
      → Bounded scale s portal end
      → p.block ≤ end
      → (request : Request) × (next_producer_request_range p.block s.page_size p.adaptive_page_size
            p.last_finalized s.end_block s.cursor_mode
          ≡ some request)
  asks end p b le =
      let same = effective_page s.page_size p.adaptive_page_size s.cursor_mode b.paged_by in
      let asked =
        next_producer_request_range-Asked p.block s.page_size p.adaptive_page_size p.last_finalized
          s.end_block s.cursor_mode (omega (arith, b.fits)) (rw same (omega (arith, b.fits))) in
      is_some _ (rw b.ends le) (rw same (omega (arith, b.fits))) asked

  round-ends :
      (end n : ℕ) (p : Producer)
      → Bounded scale s portal end
      → end < p.block
      → round scale s (portal n) p ≡ returned no_err p
  unfolding round
  round-ends end n p b lt = rw (refuses end p b lt, round) refl

  round-Moved :
      (end n : ℕ) (p : Producer)
      → Bounded scale s portal end
      → ((n from : ℕ) (to_block : Option ℕ) → Answered s.cursor_mode from (portal n from to_block))
      → Moved scale s portal end p (round scale s (portal n) p)
  unfolding round
  round-Moved end n p b answers = elim (Bool-cases (ltb end p.block)) [
    | inl yes_ ↦
        rw (round-ends end n p b (ground arith))
          (over no_err p (past p (ground arith)) (omega arith))
    | inr no_ ↦
        let (request, e) = asks end p b (ground arith) in
        rw (e, round)
          (moves scale s portal end n request.to_block _ p b refl
            (answers n p.block request.to_block) (ground (arith, b.fits, b.paged_by)))
  ]

  -- The first round decides: the producer has returned, or the rest of the rounds does it.
  first_round :
      (end n : ℕ) (p : Producer) (r : Round)
      → round scale s (portal n) p ≡ r
      → Moved scale s portal end p r
      → ((p' : Producer) → p.block < p'.block → Finishes end n p')
      → Finishes end (suc n) p
  unfolding produce
  first_round end n p _ e (up p' l _) rest =
      let (signal, q, done, ended, above) = rest p' l in
      (signal, q, rw (e, produce) done, ended, omega arith)
  first_round end n p _ e (over signal p' ended above) rest =
      (signal, p', rw (e, produce) refl, ended, above)

  produce-Finishes :
      (end n : ℕ) (p : Producer)
      → Bounded scale s portal end
      → ((n from : ℕ) (to_block : Option ℕ) → Answered s.cursor_mode from (portal n from to_block))
      → end + 1 ≤ n + p.block
      → Finishes end (suc n) p
  unfolding produce
  produce-Finishes end zero p b answers m =
      let e = round-ends end zero p b (omega arith) in
      (no_err, p, rw (e, produce) refl, past p (omega arith), omega arith)
  produce-Finishes end (suc n) p b answers m =
      first_round end (suc n) p _ refl (round-Moved end (suc n) p b answers)
        (λ p' l. produce-Finishes end n p' b answers (omega arith))

  -- With an end block and a page that does not wrap before it, and a portal that answers in each round, not
  -- always alike, with a page, whose blocks if any are not below the first asked for, with no body, with
  -- one that does not parse, or, with cursors, with a fork, the producer's loop returns, after no more
  -- rounds than there are blocks from its cursor to the end and one more. It returns with its cursor above
  -- the end, or at an answer with no body, without an error; at one that does not parse, with an error; or
  -- at a fork, with its blocks. Its cursor has not moved down.
  pub produce-finishes :
      (end : ℕ) (p : Producer)
      → Bounded scale s portal end
      → ((n from : ℕ) (to_block : Option ℕ) → Answered s.cursor_mode from (portal n from to_block))
      → (signal : ProducerSignal) × (p' : Producer) × (produce scale s
            (suc (end + 1 - p.block))
            portal
            p
          ≡ some (signal, p'))
        × Ended portal end signal p'
        × (p.block ≤ p'.block)
  produce-finishes end p b answers =
      produce-Finishes end (end + 1 - p.block) p b answers (omega arith)
