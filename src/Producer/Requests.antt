-- ===== src/Producer/Requests.antt =====
-- What the requests of the producer are.
use sqd_go.Base.{ℕ, ◌+◌, ◌^◌, ◌≤◌, ◌<◌, ◌≡◌, ◌⊎◌, zero, suc, Bool, true, false, Option, none, some}
use sqd_go.PageSize.{word}
use sqd_go.Producer.{Request, blocks, tail}

-- Not above the end, where there is one.
abbrev pub Within : ℕ → Option ℕ → Type 0
Within n none = 0 ≤ n
Within n (some end) = n ≤ end

-- Whether one page is asked for. Without cursors, where there is a page size. With them, where the
-- effective page is not 0, and the finalized head is not known yet or lies above the page, whose sum wraps.
abbrev pub IsPaged : (current page effective last_finalized : ℕ) → Bool → Type 0
IsPaged current page effective last_finalized false = 0 < page
IsPaged current page effective last_finalized true =
    (0 < effective) × ((last_finalized ≡ 0) ⊎ (word (current + effective) < last_finalized))

-- The effective page: the adaptive one, with cursors and no page size.
abbrev pub page_in : ℕ → ℕ → Bool → ℕ
page_in page adaptive false = page
page_in zero adaptive true = adaptive
page_in (suc n) adaptive true = suc n

-- The last block of a page: that at its size, or the end where this is below.
abbrev pub EndsPage : (current page : ℕ) → Option ℕ → ℕ → Type 0
EndsPage current page end to_block =
    (Within to_block end)
    × (to_block < current + page)
    × ((to_block + 1 ≡ current + page) ⊎ (end ≡ some to_block))

-- The request for the blocks from `current` on, where `Paged` tells whether one page is asked for.
pub data Asked (Paged : Type 0) (current page : ℕ) (end : Option ℕ) (cursor_mode : Bool)
    : Option Request → Type 0 where
  passed : ¬ Within current end → Asked Paged current page end cursor_mode none
  wrapped :
      Within current end
      → Paged
      → 2 ^ 64 < current + page
      → Asked Paged current page end cursor_mode none
  paged :
      (to_block : ℕ)
      → Within current end
      → Paged
      → current ≤ to_block
      → EndsPage current page end to_block
      → Asked Paged current page end cursor_mode
          (some (record { to_block = some to_block; label = blocks current to_block }))
  whole :
      (to_block : ℕ)
      → Within current end
      → ¬ Paged
      → end ≡ some to_block
      → cursor_mode ≡ true
      → Asked Paged current page end cursor_mode
          (some (record { to_block = some to_block; label = blocks current to_block }))
  unbounded :
      (to_block : ℕ)
      → Within current end
      → ¬ Paged
      → end ≡ some to_block
      → cursor_mode ≡ false
      → Asked Paged current page end cursor_mode
          (some (record { to_block = none; label = blocks current to_block }))
  to_tail :
      Within current end
      → ¬ Paged
      → end ≡ none
      → Asked Paged current page end cursor_mode
          (some (record { to_block = none; label = tail current }))
