-- ===== src/Ring.antt =====
-- internal/ingestion/fork_go.go, `BlockRingBuffer`: the unfinalized blocks in an array of 1024
-- places used in a circle. A `head` of -1 is `none`. A method returns the new ring; the outer
-- option is `none` for an index out of range, on which the program panics. A write stands only
-- where a read at the same index came before or at an index masked to the array.
pub mod Window
pub mod Push
pub mod Prune
pub mod Ancestor
pub mod Resolve
pub mod Batch
mod Tests
use sqd_go.Base.{
  ℕ, zero, suc, ◌+◌, ◌-◌, ◌<◌, Bool, true, false, Option, none, some, List, [], ◌∷◌, ltb, leb, ◌==◌,
  if◌then◌else◌, get_elem?, set, replicate, bit_and, ◌>>=◌,
}
use sqd_go.Chain.{BlockRef, Head, same_hash, all_blocks_before, effective_finalized_head}
use sqd_go.Fork.{below_finalized}

pub record Ring : Type 0 where
  pub buffer : List BlockRef
  pub head : Option ℕ
  pub tail : ℕ
  pub count : ℕ
  pub finalized_head : Option BlockRef

abbrev pub no_block : BlockRef
no_block = record { number = 0; hash = "" }

abbrev pub capacity : ℕ
capacity = 1024

-- `NewBlockRingBuffer`
unfoldable pub new_ring : Ring
new_ring = record {
  buffer = replicate capacity no_block;
  head = none;
  tail = 0;
  count = 0;
  finalized_head = none;
}

-- `(i + 1) & 1023`
pub next : ℕ → ℕ
next i = bit_and (i + 1) 1023

advance : Ring → BlockRef → ℕ → Ring
advance r ref at =
    if ltb r.count capacity
    then record r { head = some at; buffer = set r.buffer at ref; count = r.count + 1 }
    else record r { head = some at; buffer = set r.buffer at ref; tail = next r.tail }

push_onto : Ring → BlockRef → ℕ → Option BlockRef → Option Ring
unfolding advance
push_onto r ref h none = none
push_onto r ref h (some last) =
    if ltb ref.number last.number
    then some r
    else if last.number == ref.number
    then some (record r { buffer = set r.buffer h ref })
    else some (advance r ref (next h))

push_head : Ring → BlockRef → Option ℕ → Option Ring
unfolding push_onto
push_head r ref none = none
push_head r ref (some h) = push_onto r ref h (get_elem? r.buffer h)

pub push : Ring → BlockRef → Option Ring
unfolding push_head
push r ref =
    if below_finalized r.finalized_head ref
    then some r
    else if r.count == 0
    then some (record r { head = some 0; tail = 0; buffer = set r.buffer 0 ref; count = 1 })
    else push_head r ref r.head

-- The loop of `Prune`, by recursion on `r.count`: the new tail and count.
prune_loop : List BlockRef → ℕ → ℕ → ℕ → Option (ℕ × ℕ)
prune_loop buffer n tail zero = some (tail, 0)
prune_loop buffer n tail (suc count) = elim (get_elem? buffer tail) [
  | none ↦ none
  | some b ↦
      if ltb n b.number then some (tail, suc count) else prune_loop buffer n (next tail) count
]

settle : Ring → ℕ × ℕ → Ring
settle r (tail, count) =
    if count == 0
    then record r { head = none; tail = 0; count = 0 }
    else record r { tail = tail; count = count }

pub prune : Ring → ℕ → Option Ring
unfolding prune_loop settle
prune r n = do at ← prune_loop r.buffer n r.tail r.count; some (settle r at)

-- `r.finalizedHead == nil || ref.Number > r.finalizedHead.Number`
abbrev pub raises : Option BlockRef → BlockRef → Bool
raises none ref = true
raises (some f) ref = ltb f.number ref.number

pub set_finalized_head : Ring → Option BlockRef → Option Ring
unfolding prune
set_finalized_head r none = some r
set_finalized_head r (some ref) =
    if raises r.finalized_head ref
    then prune (record r { finalized_head = some ref }) ref.number
    else some r

pub data RingError : Type 0 where
  empty_fork finalized_mismatch unable_to_process unable_without_finalized : RingError

pub data Outcome : Type 0 where
  found : Option BlockRef → Outcome
  failed : RingError → Outcome

abbrev pub cleared : Ring → Ring
cleared r = record r { count = 0; head = none; tail = 0 }

-- The first loop skips the fork's blocks below the finalized head.
skip_older : ℕ → List BlockRef → List BlockRef
skip_older n [] = []
skip_older n (b ∷ bs) = if ltb b.number n then skip_older n bs else b ∷ bs

-- `lastCommonIdx`: -1, -2, or an index with the place in the buffer.
pub data Common : Type 0 where
  nothing at_finalized : Common
  at_block : ℕ → ℕ → Common

pub data Start : Type 0 where
  mismatch : Start
  start : Common → List BlockRef → Start

start_at : BlockRef → List BlockRef → Start
start_at f [] = start nothing []
start_at f (b ∷ bs) =
    if f.number == b.number
    then if same_hash f b then start at_finalized bs else mismatch
    else start nothing (b ∷ bs)

pub match_finalized : Option BlockRef → List BlockRef → Start
unfolding skip_older start_at
match_finalized none fork = start nothing fork
match_finalized (some f) fork = start_at f (skip_older f.number fork)

-- The second loop. The number is `r.count - itemsProcessed`.
pub ring_scan : List BlockRef → ℕ → List BlockRef → ℕ → ℕ → Common → Option Common
ring_scan buffer zero fork at items last = some last
ring_scan buffer (suc n) [] at items last = some last
ring_scan buffer (suc n) (f ∷ fs) at items last = elim (get_elem? buffer at) [
  | none ↦ none
  | some c ↦ elim (ltb f.number c.number) [
    | true ↦ ring_scan buffer (suc n) fs at items last
    | false ↦ elim (ltb c.number f.number) [
      | true ↦ ring_scan buffer n (f ∷ fs) (next at) (items + 1) last
      | false ↦ elim (same_hash c f) [
        | true ↦ ring_scan buffer n fs (next at) (items + 1) (at_block items at)
        | false ↦ some last
      ]
    ]
  ]
]

none_common : Ring → Option BlockRef → List BlockRef → Outcome × Ring
none_common r none fork = (failed unable_without_finalized, r)
none_common r (some f) fork =
    if all_blocks_before fork f.number
    then (found (some f), cleared r)
    else (failed unable_to_process, r)

roll_to : Ring → List BlockRef → Common → Option (Outcome × Ring)
unfolding none_common
roll_to r fork nothing = some (none_common r r.finalized_head fork)
roll_to r fork at_finalized = some (found r.finalized_head, cleared r)
roll_to r fork (at_block items at) = do
  b ← get_elem? r.buffer at
  some (found (some b), record r { head = some at; count = items + 1 })

scan_from : Ring → List BlockRef → Start → Option (Outcome × Ring)
unfolding ring_scan roll_to
scan_from r fork mismatch = some (failed finalized_mismatch, r)
scan_from r fork (start common rest) = do
  last ← ring_scan r.buffer r.count rest r.tail 0 common
  roll_to r fork last

pub find_common_ancestor : Ring → List BlockRef → Option (Outcome × Ring)
unfolding scan_from match_finalized
find_common_ancestor r [] = some (failed empty_fork, r)
find_common_ancestor r (b ∷ bs) = scan_from r (b ∷ bs) (match_finalized r.finalized_head (b ∷ bs))

after_fork : Outcome × Ring → Option RingError × Ring
after_fork (found b, r) = (none, r)
after_fork (failed e, r) = elim r.finalized_head [ none ↦ (none, cleared r) | some f ↦ (some e, r) ]

unfoldable pub handle_fork : Ring → List BlockRef → Option (Option RingError × Ring)
unfolding after_fork
handle_fork r previous = do out ← find_common_ancestor r previous; some (after_fork out)

chain_loop : List BlockRef → ℕ → ℕ → Option (List BlockRef)
chain_loop buffer at zero = some []
chain_loop buffer at (suc n) = do
  b ← get_elem? buffer at
  rest ← chain_loop buffer (next at) n
  some (b ∷ rest)

pub get_chain : Ring → Option (List BlockRef)
unfolding chain_loop
get_chain r = chain_loop r.buffer r.tail r.count

head_block : Ring → Option ℕ → Option (Option BlockRef)
head_block r none = none
head_block r (some h) = do b ← get_elem? r.buffer h; some (some b)

pub head : Ring → Option (Option BlockRef)
unfolding head_block
head r = if r.count == 0 then some r.finalized_head else head_block r r.head

pub push_all : Ring → List BlockRef → Option Ring
push_all r [] = some r
push_all r (b ∷ bs) = do r' ← push r b; push_all r' bs

unfoldable pub init : Ring → Option BlockRef → List BlockRef → Option Ring
unfolding push_all
init r finalized heads = push_all (record (cleared r) { finalized_head = finalized }) heads

unfoldable pub apply_batch : Ring → Head → List BlockRef → Option Ring
unfolding push_all
apply_batch r header blocks = do
  r' ← set_finalized_head r (effective_finalized_head header.finalized blocks)
  push_all r' blocks
