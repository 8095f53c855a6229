-- ===== src/Replay/Pruning.antt =====
-- `PruneBefore`, `PruneAfter` and `rebuildIndexLocked` of internal/ingestion/replay.go.
use sqd_go.Base.{ℕ, zero, suc, ◌+◌, ◌-◌, ◌%◌, List, [], ltb, leb, ◌==◌, if◌then◌else◌, set}
use sqd_go.Replay.{
  Kinds, BlockEntry, ReplayBuffer, Index, delete, put, empty_entry, slot, oldest, oldest_pos,
}

module _ {K : Kinds} where
  -- The loop runs while entries are left, so `count` bounds it. The last value is `pruned`.
  unfoldable pub before_loop : ℕ → ℕ → ReplayBuffer K → ℕ → ℕ → ReplayBuffer K × ℕ
  before_loop finalized_block zero rb oldest_pos pruned = (rb, pruned)
  before_loop finalized_block (suc n) rb oldest_pos pruned =
      let entry = slot rb.slots oldest_pos in
      let rest =
        before_loop finalized_block n
          (record rb {
            index = delete rb.index entry.number;
            slots = set rb.slots oldest_pos empty_entry;
            count = rb.count - 1;
          })
          ((oldest_pos + 1) % rb.capacity) (pruned + 1) in
      if ltb finalized_block entry.number then (rb, pruned) else rest

  unfoldable pub prune_before : ReplayBuffer K → ℕ → ReplayBuffer K × ℕ
  unfolding before_loop
  prune_before rb finalized_block =
      if rb.count == 0 then (rb, 0) else before_loop finalized_block rb.count rb (oldest rb) 0

  -- The loop of `PruneAfter` from the entry `i` on, with `n` entries left.
  unfoldable pub after_loop : ℕ → ℕ → ℕ → ℕ → ℕ → List (BlockEntry K) → ℕ → List (BlockEntry K) × ℕ
  after_loop block_number capacity oldest_pos zero i slots new_count = (slots, new_count)
  after_loop block_number capacity oldest_pos (suc n) i slots new_count =
      let at = (oldest_pos + i) % capacity in
      let keep = leb (slot slots at).number block_number in
      after_loop block_number capacity oldest_pos n (i + 1)
        (if keep then slots else set slots at empty_entry)
        (if keep then new_count + 1 else new_count)

  unfoldable pub rebuild_loop : List (BlockEntry K) → ℕ → ℕ → ℕ → ℕ → Index → Index
  rebuild_loop slots capacity oldest_pos zero i index = index
  rebuild_loop slots capacity oldest_pos (suc n) i index =
      let at = (oldest_pos + i) % capacity in
      rebuild_loop slots capacity oldest_pos n (i + 1) (put index (slot slots at).number at)

  unfoldable pub rebuild_index : ReplayBuffer K → ReplayBuffer K
  unfolding rebuild_loop
  rebuild_index rb =
      if rb.count == 0
      then record rb { index = [] }
      else record rb { index = rebuild_loop rb.slots rb.capacity (oldest_pos rb) rb.count 0 [] }

  unfoldable pub prune_after : ReplayBuffer K → ℕ → ReplayBuffer K
  unfolding after_loop rebuild_index
  prune_after rb block_number =
      if rb.count == 0
      then rb
      else let start = oldest_pos rb in
        let (slots, new_count) = after_loop block_number rb.capacity start rb.count 0 rb.slots 0 in
        rebuild_index (record rb {
          slots = slots;
          count = new_count;
          write_pos = (start + new_count) % rb.capacity;
        })
