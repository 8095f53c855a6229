-- ===== src/ForkSqd/Same.antt =====
-- The functions that the package keeps its own copy of compute what those of
-- internal/ingestion/fork.go compute.
use sqd_go.Base.{ℕ, zero, suc, ◌+◌, ◌≡◌, refl, Option, none, some, List, [], ◌∷◌, arith}
use sqd_go.Chain
use sqd_go.Chain.{BlockRef}
use sqd_go.ForkSqd.{
  rollback_scan, find_rollback_index, all_before_loop, all_before, first_unfinalized, effective_at,
  effective_finalized_head,
}

scan-same :
    (a b : List BlockRef) (i : ℕ) (last : Option ℕ)
    → rollback_scan a b i last ≡ Chain.rollback_scan a b i last
unfolding rollback_scan Chain.rollback_scan
scan-same [] b i last = refl
scan-same (x ∷ a) [] i last = refl
scan-same (x ∷ a) (y ∷ b) i last = ground (
  arith,
  scan-same a (y ∷ b) (i + 1) last,
  scan-same (x ∷ a) b i last,
  scan-same a b (i + 1) (some i),
)

-- `FindRollbackIndex` and `findRollbackIndex` agree on any two lists of blocks, in any order.
pub find_rollback_index_same :
    (a b : List BlockRef) → find_rollback_index a b ≡ Chain.find_rollback_index a b
unfolding find_rollback_index Chain.find_rollback_index
find_rollback_index_same a b = scan-same a b 0 none

all_before_loop_same :
    (bs : List BlockRef) (n : ℕ) → all_before_loop bs n ≡ Chain.all_before_loop bs n
unfolding all_before_loop Chain.all_before_loop
all_before_loop_same [] n = refl
all_before_loop_same (b ∷ bs) n = ground (arith, all_before_loop_same bs n)

pub all_before_same : (bs : List BlockRef) (n : ℕ) → all_before bs n ≡ Chain.all_blocks_before bs n
unfolding all_before Chain.all_blocks_before
all_before_same [] n = refl
all_before_same (b ∷ bs) n = all_before_loop_same (b ∷ bs) n

first_same :
    (n : ℕ) (bs : List BlockRef) (i : ℕ) → first_unfinalized n bs i ≡ Chain.first_unfinalized n bs i
unfolding first_unfinalized Chain.first_unfinalized
first_same n [] i = refl
first_same n (b ∷ bs) i = ground (arith, first_same n bs (i + 1))

at_same :
    (o : Option ℕ) (h : BlockRef) (bs : List BlockRef)
    → effective_at o h bs ≡ Chain.effective_at o h bs
unfolding effective_at Chain.effective_at
at_same none h bs = refl
at_same (some zero) h bs = refl
at_same (some (suc k)) h bs = refl

effective_same :
    (o : Option BlockRef) (bs : List BlockRef)
    → effective_finalized_head o bs ≡ Chain.effective_finalized_head o bs
unfolding effective_finalized_head Chain.effective_finalized_head
effective_same none bs = refl
effective_same (some h) [] = refl
effective_same (some h) (b ∷ bs) = rw (first_same h.number (b ∷ bs) 0) (at_same _ h (b ∷ bs))
