-- ===== src/Replay.antt =====
-- internal/ingestion/replay.go: the buffer of recent blocks that a fork is replayed from. Every method
-- holds the mutex, so a call is one step. The buffer never looks into what a block carries: `Kinds` has
-- the types of an event, a log, a map of typed events, a generated block, a flush function and a byte
-- slice, and a nil value is `none`. The maps are lists of keys and values; positions are remainders by the
-- capacity, so that every index is in range, and `count` is at most the capacity.
pub mod Pruning
pub mod Reading
pub mod Positions
pub mod Index
pub mod Contents
pub mod Writes
pub mod Forks
pub mod Prune
pub mod Finalize
pub mod Reads
pub mod Newest
mod Tests
use sqd_go.Base.{
  ℕ, zero, suc, ◌+◌, ◌-◌, ◌%◌, ◌^◌, Bool, true, false, not, ◌&&◌, ◌||◌, Option, none, some, List,
  [], ◌∷◌, ◌++◌, String, ltb, leb, ◌==◌, if◌then◌else◌, get_or, set, length, replicate,
}
use sqd_go.Chain.{BlockRef}

pub record Kinds : Type 1 where
  pub event : Type 0
  pub log : Type 0
  pub typed : Type 0
  pub generated : Type 0
  pub flush : Type 0
  pub bytes : Type 0

pub record BlockRow : Type 0 where
  pub chain_id : ℕ
  pub block_number : ℕ
  pub block_timestamp : ℕ
  pub block_hash : String

pub record BlockEntry (K : Kinds) : Type 0 where
  pub number : ℕ
  pub hash : String
  pub timestamp : ℕ
  pub events : List K.event
  pub logs : List K.log
  pub block_row : BlockRow
  pub typed_events : Option K.typed
  pub finalized : Option BlockRef
  pub is_last_in_batch : Bool
  pub range_label : String
  pub request_start_block : ℕ
  pub raw : Option K.bytes
  pub proto : Option K.generated
  pub batch_flush : Option K.flush
  pub batch_events : ℕ

pub record BatchParsedBlock (K : Kinds) : Type 0 where
  pub number : ℕ
  pub hash : String
  pub timestamp : ℕ
  pub block : Option K.generated
  pub raw_line : Option K.bytes

abbrev pub Index : Type 0
Index = List (ℕ × ℕ)

abbrev pub lookup : Index → ℕ → Option ℕ
lookup [] n = none
lookup ((k, v) ∷ m) n = if k == n then some v else lookup m n

abbrev pub delete : Index → ℕ → Index
delete [] n = []
delete ((k, v) ∷ m) n = let rest = delete m n in if k == n then rest else (k, v) ∷ rest

abbrev pub put : Index → ℕ → ℕ → Index
put m n v = (n, v) ∷ delete m n

-- `notified` says whether the channel of size 1 holds a signal.
pub record ReplayBuffer (K : Kinds) : Type 0 where
  pub slots : List (BlockEntry K)
  pub capacity : ℕ
  pub index : Index
  pub write_pos : ℕ
  pub count : ℕ
  pub notified : Bool
  pub latest_block : ℕ
  pub writes : ℕ
  pub seek_block : ℕ
  pub seek_set : Bool
  pub read_pos : ℕ
  pub read_done : Bool

module _ {K : Kinds} where
  -- `blockEntry{}`
  abbrev pub empty_entry : BlockEntry K
  empty_entry = record {
    number = 0;
    hash = "";
    timestamp = 0;
    events = [];
    logs = [];
    block_row = record { chain_id = 0; block_number = 0; block_timestamp = 0; block_hash = "" };
    typed_events = none;
    finalized = none;
    is_last_in_batch = false;
    range_label = "";
    request_start_block = 0;
    raw = none;
    proto = none;
    batch_flush = none;
    batch_events = 0;
  }

  pub new_replay_buffer : ℕ → ReplayBuffer K
  new_replay_buffer capacity =
      let capacity' = if ltb capacity 1 then 8192 else capacity in
      record {
        slots = replicate capacity' empty_entry;
        capacity = capacity';
        index = [];
        write_pos = 0;
        count = 0;
        notified = false;
        latest_block = 0;
        writes = 0;
        seek_block = 0;
        seek_set = false;
        read_pos = 0;
        read_done = false;
      }

  abbrev pub slot : List (BlockEntry K) → ℕ → BlockEntry K
  slot slots pos = get_or slots pos empty_entry

  -- What `Write` and `WriteParsed` do with the entry that they make.
  pub store : ReplayBuffer K → BlockEntry K → ReplayBuffer K
  store rb entry =
      let idx = rb.write_pos % rb.capacity in
      let index' =
        if rb.count == rb.capacity then delete rb.index (slot rb.slots idx).number else rb.index in
      record rb {
        slots = set rb.slots idx entry;
        index = put index' entry.number idx;
        latest_block = entry.number;
        writes = (rb.writes + 1) % 2 ^ 64;
        write_pos = rb.write_pos + 1;
        count = if ltb rb.count rb.capacity then rb.count + 1 else rb.count;
        notified = true;
      }

  unfoldable pub write :
      ReplayBuffer K
      → (chain_id block_number : ℕ) → (block_hash : String) → (block_timestamp : ℕ) → List K.event
      → List K.log
      → Option K.typed
      → Option BlockRef
      → Bool
      → String
      → ℕ
      → Option K.bytes
      → ReplayBuffer K
  unfolding store
  write rb chain_id block_number block_hash block_timestamp events logs typed_events finalized
        is_last_in_batch range_label request_start_block raw =
      store rb (record {
        number = block_number;
        hash = block_hash;
        timestamp = block_timestamp;
        events = events;
        logs = logs;
        typed_events = typed_events;
        finalized = finalized;
        is_last_in_batch = is_last_in_batch;
        range_label = range_label;
        request_start_block = request_start_block;
        block_row = record {
          chain_id = chain_id;
          block_number = block_number;
          block_timestamp = block_timestamp;
          block_hash = block_hash;
        };
        raw = raw;
        proto = none;
        batch_flush = none;
        batch_events = 0;
      })

  unfoldable pub write_parsed :
      ReplayBuffer K
      → (chain_id : ℕ) → BatchParsedBlock K
      → Option BlockRef
      → Bool
      → String
      → ℕ
      → Option K.flush
      → ℕ
      → ReplayBuffer K
  unfolding store
  write_parsed rb chain_id block finalized is_last_in_batch range_label request_start_block
        batch_flush batch_events =
      store rb (record {
        number = block.number;
        hash = block.hash;
        timestamp = block.timestamp;
        events = [];
        logs = [];
        typed_events = none;
        finalized = finalized;
        is_last_in_batch = is_last_in_batch;
        range_label = range_label;
        request_start_block = request_start_block;
        block_row = record {
          chain_id = chain_id;
          block_number = block.number;
          block_timestamp = block.timestamp;
          block_hash = block.hash;
        };
        raw = block.raw_line;
        proto = block.block;
        batch_flush = batch_flush;
        batch_events = batch_events;
      })

  pub seek : ReplayBuffer K → ℕ → ReplayBuffer K
  seek rb block_number = record rb {
    seek_block = block_number;
    seek_set = true;
    read_done = false;
    read_pos = 0;
  }

  -- The position of the oldest entry. Where there is one entry, three methods compute it another way.
  abbrev pub oldest : ReplayBuffer K → ℕ
  oldest rb = (rb.write_pos + rb.capacity - rb.count) % rb.capacity

  abbrev pub oldest_pos : ReplayBuffer K → ℕ
  oldest_pos rb =
      if rb.count == 1 then (rb.write_pos + rb.capacity - 1) % rb.capacity else oldest rb

  pub get_block : ReplayBuffer K → ℕ → Option (BlockEntry K)
  get_block rb block_number = if rb.count == 0 then none else elim (lookup rb.index block_number) [
    | none ↦ none
    | some pos ↦
        if ltb pos rb.capacity && ((slot rb.slots pos).number == block_number)
        then some (slot rb.slots pos)
        else none
  ]

  -- The loop of `CeilBlock`, over the map in any order; `best` is with `found`.
  pub ceil_loop : ReplayBuffer K → ℕ → Index → Option ℕ → Option ℕ
  ceil_loop rb n [] best = best
  ceil_loop rb n ((num, pos) ∷ m) best = ceil_loop rb n m (
      if ltb num n || not (ltb pos rb.capacity) || not ((slot rb.slots pos).number == num)
      then best
      else elim best [ none ↦ some num | some b ↦ if ltb num b then some num else some b ])

  unfoldable pub ceil_block : ReplayBuffer K → ℕ → Option ℕ
  unfolding ceil_loop
  ceil_block rb n = ceil_loop rb n rb.index none

  pub has_blocks : ReplayBuffer K → ℕ → Bool
  has_blocks rb block_number =
      if rb.count == 0
      then false
      else ltb block_number (slot rb.slots ((rb.write_pos + rb.capacity - 1) % rb.capacity)).number

  unfoldable pub len : ReplayBuffer K → ℕ
  len rb = rb.count
