-- ===== src/Chain.antt =====
-- internal/ingestion/fork.go, the functions on lists of blocks, and the two structs of
-- internal/client/client.go that they work on. A `*client.BlockRef` is an option. A Go index of -1
-- is `none`.
pub mod Order
pub mod Agreement
pub mod Rollback
pub mod Outcome
pub mod Finalized
mod Tests
use sqd_go.Base.{
  ℕ, zero, suc, ◌+◌, Bool, true, false, not, ◌&&◌, Option, none, some, List, [], ◌∷◌, String,
  str_eq, ltb, leb, ◌==◌, if◌then◌else◌, get_elem?, last?,
}

pub record BlockRef : Type 0 where
  pub number : ℕ
  pub hash : String

pub record Head : Type 0 where
  pub finalized : Option BlockRef
  pub latest : Option BlockRef

abbrev pub same_hash : BlockRef → BlockRef → Bool
same_hash a b = str_eq a.hash b.hash

-- The two-pointer loop, on what is left of each chain: `i` is `currentIndex`, and `last` is
-- `lastCommonIndex`.
unfoldable pub rollback_scan : List BlockRef → List BlockRef → ℕ → Option ℕ → Option ℕ
rollback_scan [] fs i last = last
rollback_scan (c ∷ cs) [] i last = last
rollback_scan (c ∷ cs) (f ∷ fs) i last = elim (ltb f.number c.number) [
  | true ↦ rollback_scan (c ∷ cs) fs i last
  | false ↦ elim (ltb c.number f.number) [
    | true ↦ rollback_scan cs (f ∷ fs) (i + 1) last
    | false ↦ elim (same_hash c f) [ true ↦ rollback_scan cs fs (i + 1) (some i) | false ↦ last ]
  ]
]

unfoldable pub find_rollback_index : List BlockRef → List BlockRef → Option ℕ
unfolding rollback_scan
find_rollback_index current fork = rollback_scan current fork 0 none

unfoldable pub all_before_loop : List BlockRef → ℕ → Bool
all_before_loop [] n = true
all_before_loop (b ∷ bs) n = if leb n b.number then false else all_before_loop bs n

unfoldable pub all_blocks_before : List BlockRef → ℕ → Bool
unfolding all_before_loop
all_blocks_before [] n = false
all_blocks_before (b ∷ bs) n = all_before_loop (b ∷ bs) n

-- The index of the first block above `n`.
unfoldable pub first_unfinalized : ℕ → List BlockRef → ℕ → Option ℕ
first_unfinalized n [] i = none
first_unfinalized n (b ∷ bs) i = if ltb n b.number then some i else first_unfinalized n bs (i + 1)

-- The `switch` on that index. The clone of the block at an index is the read of it.
unfoldable pub effective_at : Option ℕ → BlockRef → List BlockRef → Option BlockRef
effective_at none h blocks = last? blocks
effective_at (some zero) h blocks = some h
effective_at (some (suc k)) h blocks = get_elem? blocks k

unfoldable pub effective_finalized_head : Option BlockRef → List BlockRef → Option BlockRef
unfolding first_unfinalized effective_at
effective_finalized_head none blocks = none
effective_finalized_head (some h) [] = some h
effective_finalized_head (some h) (b ∷ bs) =
    effective_at (first_unfinalized h.number (b ∷ bs) 0) h (b ∷ bs)

unfoldable pub max_block_ref : Option BlockRef → Option BlockRef → Option BlockRef
max_block_ref none b = b
max_block_ref (some a) none = some a
max_block_ref (some a) (some b) = if leb b.number a.number then some a else some b
