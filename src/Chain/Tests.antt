-- ===== src/Chain/Tests.antt =====
-- Runs of the functions on chains, and the theorems at concrete chains.
use sqd_go.Base.{ℕ, ◌≡◌, refl, none, some, List, [], ◌∷◌, String, arith}
use sqd_go.Chain.{BlockRef, find_rollback_index, effective_finalized_head}
use sqd_go.Chain.Order.{Ascending}
use sqd_go.Chain.Agreement.{last_agreed, Behind, IsAncestor}
use sqd_go.Chain.Rollback.{find_rollback_index_agrees}
use sqd_go.Chain.Outcome.{find_rollback_index-IsAncestor, find_rollback_index-Behind}

abbrev block : ℕ → String → BlockRef
block n h = record { number = n; hash = h }

abbrev main : List BlockRef
main = block 10 "a" ∷ block 11 "b" ∷ block 12 "c" ∷ []

abbrev side : List BlockRef
side = block 10 "a" ∷ block 11 "b" ∷ block 12 "x" ∷ []

abbrev other : List BlockRef
other = block 10 "y" ∷ block 11 "z" ∷ []

main-Ascending : Ascending main
main-Ascending = ((omega arith, (omega arith, tt)), ((omega arith, tt), (tt, tt)))

side-Ascending : Ascending side
side-Ascending = ((omega arith, (omega arith, tt)), ((omega arith, tt), (tt, tt)))

other-Ascending : Ascending other
other-Ascending = ((omega arith, tt), (tt, tt))

main-side : find_rollback_index main side ≡ some 1
unfolding find_rollback_index
main-side = refl

main-other : find_rollback_index main other ≡ none
unfolding find_rollback_index
main-other = refl

main-effective : effective_finalized_head (some (block 11 "h")) main ≡ some (block 11 "b")
unfolding effective_finalized_head
main-effective = refl

find_rollback_index-IsAncestor_example : IsAncestor main side 1
find_rollback_index-IsAncestor_example =
    find_rollback_index-IsAncestor main side 1 main-Ascending side-Ascending main-side

find_rollback_index-Behind_example : Behind other main
find_rollback_index-Behind_example =
    find_rollback_index-Behind main other main-Ascending other-Ascending main-other

find_rollback_index_agrees_example : find_rollback_index main side ≡ last_agreed main side 0 none
find_rollback_index_agrees_example =
    find_rollback_index_agrees main side main-Ascending side-Ascending
