-- ===== src/Ring/Tests.antt =====
-- The theorems on a ring that holds two blocks.
use sqd_go.Base.{
  ℕ, zero, suc, ◌≡◌, ◌∙◌, refl, none, some, List, [], ◌∷◌, String, arith, set, replicate, length,
  length-set, length-replicate,
}
use sqd_go.Chain.{BlockRef, Head, effective_finalized_head}
use sqd_go.Fork
use sqd_go.Fork.{append_head, rollback_fork}
use sqd_go.Ring.{Ring, no_block, capacity, push, get_chain, find_common_ancestor, apply_batch, init}
use sqd_go.Ring.Window.{Window, Represents, get_chain-Represents}
use sqd_go.Ring.Push.{Yields, push_refines}
use sqd_go.Ring.Resolve.{SameFork, state_of, find_common_ancestor_refines}
use sqd_go.Ring.Batch.{append_heads, init_lem, NoTie, apply_batch_agrees}

abbrev block : ℕ → String → BlockRef
block n h = record { number = n; hash = h }

abbrev heads : List BlockRef
heads = block 11 "b" ∷ block 12 "c" ∷ []

abbrev two_blocks : Ring
two_blocks = record {
  buffer = set (set (replicate 1024 no_block) 0 (block 11 "b")) 1 (block 12 "c");
  head = some 1;
  tail = 0;
  count = 2;
  finalized_head = some (block 10 "a");
}

buffer-size : length two_blocks.buffer ≡ 1024
buffer-size =
    length-set (set (replicate 1024 no_block) 0 (block 11 "b")) 1 (block 12 "c")
    ∙ length-set (replicate 1024 no_block) 0 (block 11 "b")
    ∙ length-replicate 1024 no_block

two_blocks-Window : Window two_blocks.buffer 0 heads
two_blocks-Window zero lt = refl
two_blocks-Window (suc zero) lt = refl
two_blocks-Window (suc (suc k)) lt = absurd (omega arith)

two_blocks-Represents : Represents two_blocks heads
two_blocks-Represents = record {
  size = buffer-size;
  tail_in = omega arith;
  counted = refl;
  bounded = omega arith;
  newest = λ lt. refl;
  window = two_blocks-Window;
}

abbrev fork : List BlockRef
fork = block 11 "b" ∷ block 12 "x" ∷ []

abbrev header : Head
header = record { finalized = some (block 11 "b"); latest = none }

abbrev batch : List BlockRef
batch = block 13 "d" ∷ block 12 "late" ∷ []

get_chain-Represents_example : get_chain two_blocks ≡ some heads
get_chain-Represents_example =
    get_chain-Represents {r = two_blocks} {xs = heads} two_blocks-Represents

push_refines_example :
    Yields
      (push two_blocks (block 13 "d"))
      (some (block 10 "a"))
      (append_head capacity (some (block 10 "a")) heads (block 13 "d"))
push_refines_example = push_refines two_blocks (block 13 "d") heads two_blocks-Represents

find_common_ancestor_refines_example :
    SameFork two_blocks
      (state_of two_blocks.finalized_head heads)
      (find_common_ancestor two_blocks fork)
      (rollback_fork (state_of two_blocks.finalized_head heads) fork)
find_common_ancestor_refines_example =
    find_common_ancestor_refines two_blocks heads fork two_blocks-Represents

init_lem_example :
    Yields
      (init two_blocks (some (block 10 "a")) heads)
      (some (block 10 "a"))
      (append_heads capacity (some (block 10 "a")) [] heads)
init_lem_example = init_lem two_blocks (some (block 10 "a")) heads buffer-size

no_tie : NoTie two_blocks.finalized_head (effective_finalized_head header.finalized batch)
unfolding effective_finalized_head
no_tie e = absurd (omega arith)

apply_batch_agrees_example :
    let s = Fork.apply_batch (state_of two_blocks.finalized_head heads) header batch in
    Yields (apply_batch two_blocks header batch) s.finalized_head s.unfinalized_heads
apply_batch_agrees_example =
    apply_batch_agrees two_blocks header batch heads two_blocks-Represents
      (omega arith, (omega arith, tt)) (omega arith) no_tie
