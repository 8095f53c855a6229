-- ===== src/Arena.antt =====
-- internal/parser/arena.go: the bump allocators. Chunks are lists of bytes, oldest first, the current
-- one last. A slice is the index of its chunk, its start and its length. One call of a method of
-- `Arena` runs under its mutex, so it is one step. Sizes do not reach the limit of Go's `int`.
pub mod Allocate
pub mod Contents
pub mod Copy
mod Tests
use sqd_go.Base.{
  ℕ, zero, suc, ◌+◌, ◌-◌, Bool, true, false, ltb, leb, ◌==◌, if◌then◌else◌, List, [], ◌∷◌, ◌++◌,
  Option, none, some, ◌>>=◌, length, last?, set_last, take, drop, replicate, get_elem?,
}

pub record Arena : Type 0 where
  pub chunks : List (List ℕ)
  pub offset : ℕ
  pub chunk_size : ℕ

pub record Slice : Type 0 where
  pub chunk : ℕ
  pub start : ℕ
  pub size : ℕ

abbrev default_chunk_size : ℕ
default_chunk_size = 1048576

-- `NewArena`; the empty `chunks` has room for four.
abbrev new_arena : Arena
new_arena = record { chunks = []; offset = 0; chunk_size = default_chunk_size }

abbrev pub max : ℕ → ℕ → ℕ
max a b = if ltb b a then a else b

-- The current chunk has `n` bytes left.
abbrev pub has_room : Option (List ℕ) → ℕ → ℕ → Bool
has_room none offset n = false
has_room (some c) offset n = leb (offset + n) (length c)

-- The size of a new chunk for `n` bytes.
abbrev pub grown_size : ℕ → ℕ → ℕ
grown_size n size = if ltb size n then n else size

abbrev pub bump : Arena → ℕ → Slice × Arena
bump a n = (
  record { chunk = length a.chunks - 1; start = a.offset; size = n },
  record a { offset = a.offset + n },
)

abbrev pub add_chunk : Arena → ℕ → Arena
add_chunk a size = record a { chunks = a.chunks ++ (replicate size 0 ∷ []); offset = 0 }

-- The `for` loop of `Arena.Allocate` on fuel; `none` means that the fuel ran out.
allocate_loop : ℕ → Arena → ℕ → Option (Slice × Arena)
allocate_loop zero a n = none
allocate_loop (suc fuel) a n =
    let rest = allocate_loop fuel (add_chunk a (grown_size n a.chunk_size)) n in
    if has_room (last? a.chunks) a.offset n then some (bump a n) else rest

-- Two rounds are enough: a new chunk has room.
pub allocate : Arena → ℕ → Option (Slice × Arena)
unfolding allocate_loop
allocate a n = allocate_loop 2 a n

-- `copy(buf, src)` into bytes of the current chunk.
pub write_at : List ℕ → ℕ → List ℕ → List ℕ
write_at c start src = take start c ++ (src ++ drop (start + length src) c)

write_last : Option (List ℕ) → Arena → Slice → List ℕ → Arena
unfolding write_at
write_last none a s src = a
write_last (some c) a s src = record a { chunks = set_last a.chunks (write_at c s.start src) }

-- The slice that was just allocated stands in the current chunk.
pub copy_into : Arena → Slice → List ℕ → Arena
unfolding write_last
copy_into a s src = write_last (last? a.chunks) a s src

-- `AllocateCopy`, and `AllocateString` on the bytes of its string. The slice is `none` for nil.
pub allocate_copy : Arena → List ℕ → Option (Option Slice × Arena)
unfolding allocate copy_into
allocate_copy a [] = some (none, a)
allocate_copy a (b ∷ bs) = do
  (s, a') ← allocate a (length (b ∷ bs))
  some (some s, copy_into a' s (b ∷ bs))

pub reset : Arena → Arena
reset a = elim a.chunks [ [] ↦ a | c ∷ cs ↦ record a { chunks = c ∷ []; offset = 0 } ]

total : List (List ℕ) → ℕ
total [] = 0
total (c ∷ cs) = length c + total cs

unfoldable pub size : Arena → ℕ
unfolding total
size a = total a.chunks

abbrev used : Arena → ℕ
used a = a.offset

grow_current : Arena → ℕ → Option (List ℕ) → Arena
grow_current a n none = record a { chunks = a.chunks ++ (replicate (max n a.chunk_size) 0 ∷ []) }
grow_current a n (some c) = if ltb (length c) n then add_chunk a (max n a.chunk_size) else a

pub grow_to : Arena → ℕ → Arena
unfolding grow_current
grow_to a n = grow_current a n (last? a.chunks)

-- `ArenaUnsafe.Allocate`: no loop, the new chunk serves at once. `ArenaUnsafe` has the fields of
-- `Arena` but the mutex.
pub allocate_unsafe : Arena → ℕ → Slice × Arena
allocate_unsafe a n =
    if has_room (last? a.chunks) a.offset n
    then bump a n
    else let grown = add_chunk a (grown_size n a.chunk_size) in
      (record { chunk = length grown.chunks - 1; start = 0; size = n }, record grown { offset = n })

-- The bytes of a slice.
pub read : Arena → Slice → Option (List ℕ)
read a s = do c ← get_elem? a.chunks s.chunk; some (take s.size (drop s.start c))
