-- ===== src/Lib.antt =====
-- sqd-go streams blocks of a chain from a portal into ClickHouse. This library models the parts of it
-- that must be right when the chain forks, when a run starts again from a saved state, and when
-- responses are sized, stored and read: paths below are from the repository's root.
--
-- How the parts interact. The ingestion loop asks the portal for pages of blocks, sized by
-- `PageSize`. A deep range of final blocks is divided among the workers of the parallel fetcher,
-- `Fetch`. The parser package scans the headers of a page with
-- `Jsonl`, has arenas for the bytes that a caller copies, `Arena`, and decodes events with `Decoder`,
-- which reads their data with `AbiUnpack`; generated programs keep old state in the cold store
-- `FlatCold` and in files behind the filters of `ColdFilter`. Each batch goes to a fork tracker, which keeps the finalized head and the blocks
-- above it. When the portal reports that the chain has forked, the tracker finds the newest block
-- that both chains share, and ingestion goes on from there. The tracker's state is saved with each
-- batch, and `Recovery` selects from it where the next run starts.
--
-- Which file models which part:
--   Chain        internal/ingestion/fork.go, the functions on lists of blocks, with `BlockRef` and
--                `Head` of internal/client/client.go.
--   Fork         internal/ingestion/fork.go, `processorState`: the heads as a list. The other trackers
--                are compared with it.
--   Ring         internal/ingestion/fork_go.go, `BlockRingBuffer`: the heads in an array of 1024 places.
--                `Ring.Window` says which list a ring holds; the other children prove that each method
--                acts on that list.
--   ForkTracker  internal/ingestion/tracker.go, the ring with the current block beside it, which the
--                ingestion loop uses.
--   ForkSqd      internal/fork_sqd/fork_sqd.go, a tracker with its own functions on chains.
--   PageSize     internal/ingestion/pagesize.go, the controller of the page size.
--   Arena        internal/parser/arena.go, the bump allocators of the parser.
--   Recovery     internal/ingestion/recovery.go, with the conversions of internal/ingestion/ingestion.go
--                and the structs of internal/database/clickhouse.go.
--   AbiUnpack    abiunpack/abiunpack.go, hex strings and ABI words. go-ethereum and holiman/uint256 are the
--                record `Packages`, an argument of the definitions that call them.
--   ColdFilter   coldcache/filter.go and coldcache/filter_split.go, the Bloom filters.
--   FlatCold     coldcache/flatcold.go, the flat cold store. `Linked` is its invariant, `Holds` says which
--                values it holds, and `Trace` compares a sequence of calls with a map.
--   Jsonl        internal/parser/jsonl.go, the scanner of block headers.
--   Decoder      internal/parser/abi.go, the decoders of a configuration and of event data. go-ethereum
--                and the library of Go are the record `Decoder.Packages`. `Building` has
--                `BuildEventDecoder`, `Unpacking` has `fastUnpack`.
--   Fetch        internal/ingestion/parallel_fetch.go, how the parallel fetcher divides its range into
--                units and hands them out.
--   Replay       internal/ingestion/replay.go, the buffer of recent blocks. `contents` is the list of its
--                entries; what a block carries is opaque.
--   Producer     internal/ingestion/ingestion.go, the ranges that the producer asks for and what its
--                loop in `processChain` does with a reply: an error, a fork, an answer without a body,
--                one that does not parse, or a page, with the page sizes of PageSize. The portal is, in
--                each round, a function of the range; the parent hash of a request is left to it.
--                `round` is one pass of the loop, and `produce` is the loop.
--   Protomath    protomath/uint256.go and protomath/decimal256.go, numbers of 256 bits. `value` is the
--                number of four limbs and `signed` that of a decimal. The operations of holiman/uint256 are
--                the record `Holiman`, and `Laws` says what its documentation says of them.
--   Base         helpers that the modules share.
--
-- How the code is carried over. A definition has the name of its Go function in the style of this
-- library: `rollback_fork` for `rollbackFork`. A method takes its receiver first and returns the new
-- one. A pointer that may be nil is an option, a Go index of -1 is `none`, and a panic on an index out
-- of range is `none` too where the code reads arrays by computed indices. Numbers are natural numbers;
-- where a uint64 sum or product may wrap, the remainder by 2 ^ 64 is written out. Blocks and cursors
-- are values: the code clones them where it keeps a pointer.
--
-- Bounds and fuel. Loops are recursion on the list or count that they consume. One loop on fuel is
-- that of `Arena.Allocate`, with two rounds: a chunk that was just added has room, so the second round
-- ends it. The loop of `enqueueGaps` has a round for each block of its range, and that of
-- `splitBlockCount` 64 doublings. The walks
-- of `FlatCold` have a step for each slot, since a chain has each slot at most once, and its CLOCK
-- sweep has a round more, for the slot that it clears first; the buckets are doubled 64 times at most.
-- The scan of a page has a round for each byte. The loop of `PruneBefore` ends when no entry is left, so the
-- number of entries bounds it. The producer's loop is given a number of rounds, and its termination is
-- among the results. The 1024 places of the ring and the 4096 heads of `processorState` are the
-- constants of the source. The replay buffer counts its entries up to its capacity, so that
-- `writePos - count + capacity` is never below 0.
--
-- Not modelled: HTTP, ClickHouse and file access, the templates and the code they generate, command
-- line, configuration and monitoring, which are input and output around these parts; the main
-- loops of the ingestion but for the producer's sequential rounds, without the wait for the replay buffer
-- and the cancelled context; requests, rate limiter and goroutines of the
-- parallel fetcher; the full parse of a JSON line, which stands on fastjson, and the fallback of the
-- event decoder, which switches on dynamic types; the text forms of protomath and its conversions with big.Int; waiting on the channel of the
-- replay buffer. Float arithmetic in `clampPageForLatency` is a parameter.
pub mod Base
pub mod Chain
pub mod FlatCold
pub mod Fork
pub mod Ring
pub mod ForkSqd
pub mod Jsonl
pub mod PageSize
pub mod Arena
pub mod Recovery
pub mod ForkTracker
pub mod AbiUnpack
pub mod ColdFilter
pub mod Decoder
pub mod Fetch
pub mod Protomath
pub mod Replay
pub mod Producer
