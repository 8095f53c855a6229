-- ===== src/Replay/Reads.antt =====
-- `ReadFrom` after `Seek`, and `HasBlocks`.
use native.Mathlib.Nat.{mod-mod}
use sqd_go.Base.{
  ℕ, zero, suc, ◌+◌, ◌-◌, ◌%◌, ◌<◌, ◌≡◌, refl, sym, ap, subst, ◌∙◌, inl, inr, true, false,
  Bool-cases, Option, none, some, List, [], ◌∷◌, arith, ltb, leb, ◌==◌, if◌then◌else◌,
}
use sqd_go.Replay.{Kinds, BlockEntry, ReplayBuffer, slot, oldest, oldest_pos, seek}
use sqd_go.Replay.Reading.{
  scan_loop, copy_loop, Callbacks, Replayed, insert_failed, processor_failed, process, replay_loop,
  read_from,
}
use sqd_go.Replay.Positions.{run, contents, run-mod}
use sqd_go.Replay.Index.{From, from_cons}
use sqd_go.Replay.Contents.{IsValid}
use sqd_go.Replay.Prune.{oldest_pos_lem}
use sqd_go.Replay.Finalize.{above, above-head}

module _ {K : Kinds} where
  copy_loop-run : (rb : ReplayBuffer K) (s n : ℕ) → copy_loop rb s n ≡ run rb.slots rb.capacity s n
  unfolding copy_loop run
  copy_loop-run rb s zero = refl
  copy_loop-run rb s (suc n) =
      ap (◌∷◌ (slot rb.slots (s % rb.capacity))) (copy_loop-run rb (s + 1) n)

  scan_found :
      (rb : ReplayBuffer K) (n i p k bound : ℕ)
      → From bound (run rb.slots rb.capacity (oldest_pos rb + i) n)
      → rb.seek_block < bound
      → scan_loop rb n i (some p) k ≡ (some p, k + n)
  unfolding scan_loop run
  scan_found rb zero i p k bound f h = ap (λ t. (some p, t)) {x = k} {y = k + 0} (omega arith)
  scan_found rb (suc n) i p k bound (from_cons _ _ l f) h =
      let num = (slot rb.slots ((oldest_pos rb + i) % rb.capacity)).number in
      let after : ltb rb.seek_block num ≡ true = ground arith in
      let next : oldest_pos rb + (i + 1) ≡ oldest_pos rb + i + 1 = omega arith in
      rw after (
        scan_found rb n (i + 1) p (k + 1) (num + 1) (rw next f) (omega arith)
        ∙ ap (λ t. (some p, t)) {x = k + 1 + n} {y = k + suc n} (omega arith))

  -- What the scan finds from position `t` on: nothing, or a position whose run has the entries above the
  -- seek point.
  data Scanned (rb : ReplayBuffer K) (es : List (BlockEntry K)) : Option ℕ × ℕ → Type 0 where
    nothing : above rb.seek_block es ≡ [] → Scanned rb es (none, 0)
    found :
        (p n : ℕ)
        → run rb.slots rb.capacity p (suc n) ≡ above rb.seek_block es
        → Scanned rb es (some p, suc n)

  skip :
      (rb : ReplayBuffer K) (es : List (BlockEntry K)) (e : BlockEntry K)
      → ltb rb.seek_block e.number ≡ false
      → (r : Option ℕ × ℕ) → Scanned rb es r
      → Scanned rb (e ∷ es) r
  unfolding above
  skip rb es e h _ (nothing n) = nothing (rw h n)
  skip rb es e h _ (found p n k) = found p n (rw h k)

  scan_loop-Scanned :
      (rb : ReplayBuffer K) (n i bound : ℕ)
      → From bound (run rb.slots rb.capacity (oldest_pos rb + i) n)
      → Scanned rb (run rb.slots rb.capacity (oldest_pos rb + i) n) (scan_loop rb n i none 0)
  unfolding scan_loop run above
  scan_loop-Scanned rb zero i bound f = nothing refl
  scan_loop-Scanned rb (suc n) i bound (from_cons _ _ l f) =
      let at = (oldest_pos rb + i) % rb.capacity in
      let first = slot rb.slots at in
      let next : oldest_pos rb + (i + 1) ≡ oldest_pos rb + i + 1 = omega arith in
      let es = run rb.slots rb.capacity (oldest_pos rb + i + 1) n in
      elim (Bool-cases (ltb rb.seek_block first.number)) [
        | inl yes_ ↦
            let all = above-head rb.seek_block bound first es (from_cons first es l f) yes_ in
            let later =
              scan_found rb n (i + 1) at 1 (first.number + 1) (rw next f) (ground arith) in
            let count : 1 + n ≡ suc n = omega arith in
            rw (yes_, later, count)
              (found at n (
                run-mod rb.slots rb.capacity at (oldest_pos rb + i) (suc n)
                  (mod-mod (oldest_pos rb + i) rb.capacity)
                ∙ sym all))
        | inr no_ ↦ rw no_ (
            skip rb es first no_ _ (
              subst (λ t. Scanned rb (run rb.slots rb.capacity t n) (scan_loop rb n (i + 1) none 0))
                next (scan_loop-Scanned rb n (i + 1) (first.number + 1) (rw next f))))
      ]

module _ {K : Kinds} {S : Type 0} (calls : Callbacks K S) where
  -- The callbacks on one entry after the other, until one fails: what a replay is for.
  pub deliver : List (BlockEntry K) → S → ℕ → Replayed S
  deliver [] state replayed = record { state = state; replayed = replayed; error = none }
  deliver (e ∷ es) state replayed =
      let (inserted, failed) = calls.inserter state e.events e.block_row in
      let (processed, failed') = process calls e inserted in
      let rest = deliver es processed (replayed + 1) in
      if failed
      then record { state = inserted; replayed = replayed; error = some (insert_failed e.number) }
      else if failed'
      then record {
        state = processed;
        replayed = replayed;
        error = some (processor_failed e.number);
      }
      else rest

  replay_step :
      (n : ℕ) (e : BlockEntry K) (es : List (BlockEntry K)) (state : S) (replayed : ℕ)
      → leb e.number n ≡ false
      → ((s : S) (k : ℕ) → replay_loop calls n es s k ≡ deliver es s k)
      → replay_loop calls n (e ∷ es) state replayed ≡ deliver (e ∷ es) state replayed
  unfolding replay_loop deliver
  replay_step n e es state replayed later rest =
      let (inserted, failed) = calls.inserter state e.events e.block_row in
      let (processed, failed') = process calls e inserted in
      rw (later, replay_loop)
        (elim (Bool-cases failed) [
          | inl yes_ ↦ rw yes_ refl
          | inr no_ ↦ rw no_ (elim (Bool-cases failed') [
            | inl yes_ ↦ rw yes_ refl
            | inr fine ↦ rw fine (rest processed (replayed + 1))
          ])
        ])

  replay_loop-deliver :
      (n : ℕ) (es : List (BlockEntry K)) (state : S) (replayed : ℕ)
      → replay_loop calls n (above n es) state replayed ≡ deliver (above n es) state replayed
  unfolding replay_loop deliver above
  replay_loop-deliver n [] state replayed = refl
  replay_loop-deliver n (e ∷ es) state replayed = elim (Bool-cases (ltb n e.number)) [
    | inl yes_ ↦
        let later : leb e.number n ≡ false = ground arith in
        rw yes_ (replay_step n e (above n es) state replayed later (replay_loop-deliver n es))
    | inr no_ ↦ rw no_ (replay_loop-deliver n es state replayed)
  ]

  read_scanned :
      (rb : ReplayBuffer K) (n : ℕ) (state : S) (es : List (BlockEntry K)) (r : Option ℕ × ℕ)
      → let sought = seek rb n in
        scan_loop sought rb.count 0 none 0 ≡ r
        → Scanned sought es r
        → read_from calls sought state
          ≡ (record sought { read_done = true }, deliver (above n es) state 0)
  unfolding read_from deliver seek
  read_scanned rb n state es _ e (nothing k) = rw (e, k) refl
  read_scanned rb n state es _ e (found p m k) =
      let done : ReplayBuffer K = record (seek rb n) { read_done = true } in
      let some_ : (suc m == 0) ≡ false = ground arith in
      rw (ap (λ t. t.0) e, ap (λ t. t.1) e, some_, copy_loop-run (seek rb n) p (suc m), k)
        (ap (λ t. (done, t)) (replay_loop-deliver n es state 0))

  -- On a valid buffer, `ReadFrom` after `Seek` hands the entries above the seek point to the callbacks, in
  -- order, until one fails, and a second `ReadFrom` hands out nothing.
  pub read_from-deliver :
      (rb : ReplayBuffer K) (n : ℕ) (state : S)
      → IsValid rb
      → let sought = seek rb n in
        let done : ReplayBuffer K = record sought { read_done = true } in
        (read_from calls sought state ≡ (done, deliver (above n (contents rb)) state 0))
        × (read_from calls done state
            ≡ (done, record { state = state; replayed = 0; error = none }))
  unfolding seek read_from
  read_from-deliver rb n state v =
      let sought = seek rb n in
      let start = rb.write_pos + rb.capacity - rb.count in
      let same : run rb.slots rb.capacity (oldest_pos rb + 0) rb.count ≡ contents rb =
        run-mod rb.slots rb.capacity (oldest_pos rb + 0) start rb.count (
          ap (λ t. t % rb.capacity) {x = oldest_pos rb + 0} {y = oldest rb}
            (omega (arith, oldest_pos_lem rb))
          ∙ mod-mod start rb.capacity) in
      let scanned = scan_loop-Scanned sought rb.count 0 0 (rw same v.ascending) in
      (read_scanned rb n state _ _ refl scanned ∙ rw same refl, refl)
