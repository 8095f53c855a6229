-- ===== src/Arena/Tests.antt =====
-- The theorems on the arena at a concrete one.
use sqd_go.Base.{[], ◌∷◌}
use sqd_go.Arena.{Arena, allocate_copy}
use sqd_go.Arena.Copy.{Copied, allocate_copy-Copied}

abbrev arena : Arena
arena = record { chunks = (7 ∷ 8 ∷ 0 ∷ []) ∷ []; offset = 2; chunk_size = 3 }

allocate_copy-Copied_example : Copied arena (5 ∷ 6 ∷ []) (allocate_copy arena (5 ∷ 6 ∷ []))
allocate_copy-Copied_example = allocate_copy-Copied arena 5 (6 ∷ [])
