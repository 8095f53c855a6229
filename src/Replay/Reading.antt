-- ===== src/Replay/Reading.antt =====
-- `ReadFrom` of internal/ingestion/replay.go, and the callbacks that it takes.
use sqd_go.Base.{
  ℕ, zero, suc, ◌+◌, ◌%◌, Bool, true, false, not, Option, none, some, List, [], ◌∷◌, ltb, leb, ◌==◌,
  if◌then◌else◌, length,
}
use sqd_go.Replay.{Kinds, BlockEntry, BlockRow, ReplayBuffer, slot, oldest_pos}

module _ {K : Kinds} where
  -- The scan of `ReadFrom`: the position of the first entry above `seek_block`, and how many there are.
  unfoldable pub scan_loop : ReplayBuffer K → ℕ → ℕ → Option ℕ → ℕ → Option ℕ × ℕ
  scan_loop rb zero i start_slot scanned = (start_slot, scanned)
  scan_loop rb (suc n) i start_slot scanned =
      let at = (oldest_pos rb + i) % rb.capacity in
      let after = ltb rb.seek_block (slot rb.slots at).number in
      scan_loop rb n (i + 1)
        (if after then elim start_slot [ none ↦ some at | some p ↦ some p ] else start_slot)
        (if after then scanned + 1 else scanned)

  unfoldable pub copy_loop : ReplayBuffer K → ℕ → ℕ → List (BlockEntry K)
  copy_loop rb start zero = []
  copy_loop rb start (suc n) = slot rb.slots (start % rb.capacity) ∷ copy_loop rb (start + 1) n

-- The callbacks of `ReadFrom`, on a state of theirs. The flag of a result says that it is an error; the
-- processor may be nil.
pub record Callbacks (K : Kinds) (S : Type 0) : Type 0 where
  pub inserter : S → List K.event → BlockRow → S × Bool
  pub processor : Option (S → List K.log → S × Bool)

pub data ReadError : Type 0 where
  seek_not_set : ReadError
  insert_failed : ℕ → ReadError
  processor_failed : ℕ → ReadError

-- The state that the callbacks leave, the number of blocks replayed, and the error.
pub record Replayed (S : Type 0) : Type 0 where
  pub state : S
  pub replayed : ℕ
  pub error : Option ReadError

module _ {K : Kinds} {S : Type 0} (calls : Callbacks K S) where
  -- `processor != nil && len(entry.logs) > 0`
  pub process : BlockEntry K → S → S × Bool
  process entry state = elim calls.processor [
    | none ↦ (state, false)
    | some processor ↦ if length entry.logs == 0 then (state, false) else processor state entry.logs
  ]

  -- The loop over the copied entries.
  unfoldable pub replay_loop : ℕ → List (BlockEntry K) → S → ℕ → Replayed S
  unfolding process
  replay_loop seek_block [] state replayed = record {
    state = state;
    replayed = replayed;
    error = none;
  }
  replay_loop seek_block (entry ∷ entries) state replayed = elim (leb entry.number seek_block) [
    | true ↦ replay_loop seek_block entries state replayed
    | false ↦
        let (inserted, failed) = calls.inserter state entry.events entry.block_row in
        elim failed [
          | true ↦ record {
            state = inserted;
            replayed = replayed;
            error = some (insert_failed entry.number);
          }
          | false ↦
              let (processed, failed') = process entry inserted in
              elim failed' [
                | true ↦ record {
                  state = processed;
                  replayed = replayed;
                  error = some (processor_failed entry.number);
                }
                | false ↦ replay_loop seek_block entries processed (replayed + 1)
              ]
        ]
  ]

  unfoldable pub read_from : ReplayBuffer K → S → ReplayBuffer K × Replayed S
  unfolding scan_loop copy_loop replay_loop
  read_from rb state =
      if not rb.seek_set
      then (rb, record { state = state; replayed = 0; error = some seek_not_set })
      else if rb.read_done
      then (rb, record { state = state; replayed = 0; error = none })
      else let (start_slot, scanned) = scan_loop rb rb.count 0 none 0 in
        let done : ReplayBuffer K = record rb { read_done = true } in
        elim start_slot [
          | none ↦ (done, record { state = state; replayed = 0; error = none })
          | some start ↦
              if scanned == 0
              then (done, record { state = state; replayed = 0; error = none })
              else (done, replay_loop rb.seek_block (copy_loop rb start scanned) state 0)
        ]
