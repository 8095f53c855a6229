-- ===== src/Replay/Tests.antt =====
-- Runs of the replay buffer on a buffer of two slots.
use sqd_go.Base.{ℕ, ◌+◌, ◌≡◌, ◌++◌, refl, true, false, none, List, [], ◌∷◌, arith, length}
use sqd_go.Replay.{
  Kinds, BlockEntry, ReplayBuffer, empty_entry, new_replay_buffer, store, get_block, seek,
}
use sqd_go.Replay.Pruning.{prune_after, prune_before}
use sqd_go.Replay.Reading.{read_from, Callbacks}
use sqd_go.Replay.Positions.{run, contents}
use sqd_go.Replay.Index.{from_nil, from_cons, Below, below_nil, below_cons, find, indexed}
use sqd_go.Replay.Contents.{IsValid}
use sqd_go.Replay.Writes.{kept, store-Stored, get_block-find}
use sqd_go.Replay.Forks.{up_to}
use sqd_go.Replay.Prune.{prune_after-up_to}
use sqd_go.Replay.Finalize.{above, prune_before-above}
use sqd_go.Replay.Reads.{deliver, read_from-deliver}

abbrev kinds : Kinds
kinds = record { event = ℕ; log = ℕ; typed = ℕ; generated = ℕ; flush = ℕ; bytes = ℕ }

abbrev entry : ℕ → BlockEntry kinds
entry n = record (empty_entry {K = kinds}) { number = n; events = n ∷ [] }

-- The buffer after the blocks 4, 5 and 7: the third took the slot of the first.
abbrev buffer : ReplayBuffer kinds
buffer = record {
  slots = entry 7 ∷ entry 5 ∷ [];
  capacity = 2;
  index = (5, 1) ∷ (7, 0) ∷ [];
  write_pos = 3;
  count = 2;
  notified = true;
  latest_block = 7;
  writes = 3;
  seek_block = 0;
  seek_set = false;
  read_pos = 0;
  read_done = false;
}

buffer-contents : contents buffer ≡ entry 5 ∷ entry 7 ∷ []
unfolding run
buffer-contents = refl

buffer-stored :
    contents (store (store (store (new_replay_buffer {K = kinds} 2) (entry 4)) (entry 5)) (entry 7))
    ≡ entry 5 ∷ entry 7 ∷ []
unfolding run store new_replay_buffer
buffer-stored = refl

buffer-IsValid : IsValid buffer
unfolding run indexed
buffer-IsValid = record {
  sized = refl;
  room = omega arith;
  within = omega arith;
  ascending = from_cons (entry 5) _ (omega arith) (from_cons (entry 7) [] (omega arith) from_nil);
  exact = λ k. refl;
}

above_kept : Below 9 (kept buffer)
unfolding run
above_kept = below_cons (entry 7) [] (omega arith) below_nil

store-Stored_example :
    IsValid (store buffer (entry 9))
    × (contents (store buffer (entry 9)) ≡ kept buffer ++ (entry 9 ∷ []))
store-Stored_example = store-Stored buffer (entry 9) buffer-IsValid above_kept

get_block-find_example : get_block buffer 5 ≡ find 5 (contents buffer)
get_block-find_example = get_block-find buffer 5 buffer-IsValid

prune_after-up_to_example :
    IsValid (prune_after buffer 6)
    × (contents (prune_after buffer 6) ≡ up_to 6 (contents buffer))
    × ((prune_after buffer 6).writes ≡ buffer.writes)
prune_after-up_to_example = prune_after-up_to buffer 6 buffer-IsValid

prune_before-above_example :
    IsValid (prune_before buffer 5).0
    × (contents (prune_before buffer 5).0 ≡ above 5 (contents buffer))
    × ((prune_before buffer 5).1 + length (contents (prune_before buffer 5).0)
        ≡ length (contents buffer))
prune_before-above_example = prune_before-above buffer 5 buffer-IsValid

abbrev collect : Callbacks kinds (List ℕ)
collect = record { inserter = λ s events row. (events ++ s, false); processor = none }

read_from-deliver_example :
    let sought = seek buffer 5 in
    let done : ReplayBuffer kinds = record sought { read_done = true } in
    (read_from collect sought [] ≡ (done, deliver collect (above 5 (contents buffer)) [] 0))
    × (read_from collect done [] ≡ (done, record { state = []; replayed = 0; error = none }))
read_from-deliver_example = read_from-deliver collect buffer 5 [] buffer-IsValid
