-- ===== src/ColdFilter/Tests.antt =====
-- The theorems on the filters at small ones.
use sqd_go.Base.{ℕ, ◌≡◌, true, false, some, List, [], ◌∷◌, arith}
use sqd_go.ColdFilter.{empty_block, SplitBloom, split_add, split_may_contain}
use sqd_go.ColdFilter.Members.{IsSized, split_add-may_contain}

abbrev split : SplitBloom
split = record {
  blocks = empty_block ∷ empty_block ∷ [];
  block_mask = 1;
  atomic_ops = true;
  any_add = false;
}

split_add-may_contain_example :
    (f' : SplitBloom) × (split_add split (1 ∷ 2 ∷ []) ≡ some f')
    × IsSized f'.blocks f'.block_mask
    × (split_may_contain f' (1 ∷ 2 ∷ []) ≡ some true)
    × ((other : List ℕ)
        → split_may_contain split other ≡ some true
        → split_may_contain f' other ≡ some true)
split_add-may_contain_example = split_add-may_contain split (1 ∷ 2 ∷ []) (omega arith)
