-- ===== src/Arena/Allocate.antt =====
-- Allocation ends, and both arenas allocate alike.
use sqd_go.Base.{
  ℕ, ◌≡◌, true, some, inl, inr, arith, Bool-cases, last?, replicate, length-replicate, last?-append,
}
use sqd_go.Arena.{Arena, has_room, grown_size, add_chunk, allocate, allocate_unsafe}

fresh_room :
    (a : Arena) (n : ℕ)
    → has_room (last? (add_chunk a (grown_size n a.chunk_size)).chunks) 0 n ≡ true
fresh_room a n =
    rw (last?-append a.chunks (replicate (grown_size n a.chunk_size) 0))
      (ground (arith, length-replicate {A = ℕ} (grown_size n a.chunk_size) 0))

-- `Arena.Allocate` ends within two rounds of its loop, and `ArenaUnsafe.Allocate` on the same chunks
-- returns the same slice and leaves the same chunks and offset.
pub allocate_same : (a : Arena) (n : ℕ) → allocate a n ≡ some (allocate_unsafe a n)
unfolding allocate allocate_unsafe
allocate_same a n = elim (Bool-cases (has_room (last? a.chunks) a.offset n)) [
  | inl room ↦ rw room
  | inr full ↦ rw (full, fresh_room a n) (ground arith)
]
