-- ===== src/Chain/Rollback.antt =====
-- `findRollbackIndex` on ascending chains.
use sqd_go.Base.{ℕ, ◌+◌, ◌≡◌, refl, sym, Option, none, some, List, [], ◌∷◌, arith}
use sqd_go.Chain.{BlockRef, rollback_scan, find_rollback_index}
use sqd_go.Chain.Order.{Above, Above-mono, Ascending}
use sqd_go.Chain.Agreement.{block_at, last_agreed}

-- A block below the whole current chain is never looked up.
last_agreed-below :
    (cs : List BlockRef) (f : BlockRef) (fs : List BlockRef) (i : ℕ) (last : Option ℕ)
    → Above f.number cs
    → last_agreed cs (f ∷ fs) i last ≡ last_agreed cs fs i last
unfolding last_agreed block_at
last_agreed-below [] f fs i last a = refl
last_agreed-below (c ∷ cs) f fs i last a = ground (
  arith,
  last_agreed-below cs f fs (i + 1) last a.1,
  last_agreed-below cs f fs (i + 1) (some i) a.1,
)

block_at-Above : (n : ℕ) (fs : List BlockRef) → Above n fs → block_at n fs ≡ none
unfolding block_at
block_at-Above n [] a = refl
block_at-Above n (f ∷ fs) a = ground (arith, block_at-Above n fs a.1)

last_agreed-nil : (cs : List BlockRef) (i : ℕ) (last : Option ℕ) → last_agreed cs [] i last ≡ last
unfolding last_agreed block_at
last_agreed-nil [] i last = refl
last_agreed-nil (c ∷ cs) i last = last_agreed-nil cs (i + 1) last

scan-agrees :
    (cs fs : List BlockRef) (i : ℕ) (last : Option ℕ)
    → Ascending cs
    → Ascending fs
    → rollback_scan cs fs i last ≡ last_agreed cs fs i last
unfolding rollback_scan last_agreed
scan-agrees [] fs i last a b = refl
scan-agrees (c ∷ cs) [] i last a b = sym (last_agreed-nil (c ∷ cs) i last)
scan-agrees (c ∷ cs) (f ∷ fs) i last a b = ground (
  arith,
  scan-agrees (c ∷ cs) fs i last a b.1,
  scan-agrees cs (f ∷ fs) (i + 1) last a.1 b,
  scan-agrees cs fs (i + 1) (some i) a.1 b.1,
  last_agreed-below (c ∷ cs) f fs i last,
  last_agreed-below cs f fs (i + 1) (some i),
  Above-mono {m = f.number} {n = c.number} cs,
  block_at-Above c.number fs,
  Above-mono {m = c.number} {n = f.number} fs,
)

-- On ascending chains the two-pointer loop computes the agreement of the chains.
pub find_rollback_index_agrees :
    (current fork : List BlockRef)
    → Ascending current
    → Ascending fork
    → find_rollback_index current fork ≡ last_agreed current fork 0 none
unfolding find_rollback_index
find_rollback_index_agrees current fork a b = scan-agrees current fork 0 none a b
