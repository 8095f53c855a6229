-- ===== src/ForkSqd.antt =====
-- internal/fork_sqd/fork_sqd.go, the fork tracker with its own copy of the functions on chains. Its
-- `BlockCursor` has the fields of `client.BlockRef`. `limit` is positive once `SetLimit` has run; a
-- zero limit, that of an empty `Tracker`, caps nothing.
pub mod Same
pub mod Invariant
pub mod Fork
mod Tests
use sqd_go.Base.{
  ℕ, zero, suc, ◌+◌, ◌-◌, ℤ, pos, negsuc, Bool, true, false, not, Option, none, some, List, [], ◌∷◌,
  ◌++◌, ltb, leb, ◌==◌, if◌then◌else◌, get_elem?, last?, set_last, take, drop, length,
}
use sqd_go.Chain.{BlockRef, same_hash}

abbrev BlockCursor : Type 0
BlockCursor = BlockRef

pub record Tracker : Type 0 where
  pub current : Option BlockCursor
  pub recent : List BlockCursor
  pub watermark : Option BlockCursor
  pub limit : ℕ

abbrev default_limit : ℕ
default_limit = 1000

-- The capped slice: its last `limit` blocks.
pub cap_recent : ℕ → List BlockCursor → List BlockCursor
cap_recent zero bs = bs
cap_recent (suc limit) bs =
    if leb (length bs) (suc limit) then bs else drop (length bs - suc limit) bs

positive_limit : ℤ → ℕ
positive_limit (pos zero) = default_limit
positive_limit (pos (suc n)) = suc n
positive_limit (negsuc n) = default_limit

pub set_limit : Tracker → ℤ → Tracker
unfolding positive_limit cap_recent
set_limit t limit =
    let n = positive_limit limit in record t { limit = n; recent = cap_recent n t.recent }

pub new : ℤ → Tracker
unfolding set_limit
new limit = set_limit (record { current = none; recent = []; watermark = none; limit = 0 }) limit

-- `filterRecent`
pub filter_recent : (BlockCursor → Bool) → List BlockCursor → List BlockCursor
filter_recent keep [] = []
filter_recent keep (b ∷ bs) = if keep b then b ∷ filter_recent keep bs else filter_recent keep bs

pub prune_recent : Option BlockCursor → List BlockCursor → List BlockCursor
unfolding filter_recent
prune_recent none bs = bs
prune_recent (some f) bs = filter_recent (λ b. ltb f.number b.number) bs

-- `t.headFromChain()` where `t.current` is nil.
head_of_chain : Option BlockCursor → Option BlockCursor → Option BlockCursor
head_of_chain (some b) watermark = some b
head_of_chain none watermark = watermark

pub head_from_chain : Tracker → Option BlockCursor
unfolding head_of_chain
head_from_chain t = elim t.current [
  | some b ↦ some b
  | none ↦ head_of_chain (last? t.recent) t.watermark
]

pub init : Tracker → Option BlockCursor → Option BlockCursor → List BlockCursor → Tracker
unfolding head_from_chain prune_recent cap_recent
init t current finalized recent =
    let kept = cap_recent t.limit (prune_recent finalized recent) in
    let started = record t { current = current; watermark = finalized; recent = kept } in
    record started { current = head_from_chain started }

-- `appendRecent`
append_last : List BlockCursor → Option BlockCursor → BlockCursor → List BlockCursor
append_last bs none b = bs ++ (b ∷ [])
append_last bs (some last) b =
    if ltb b.number last.number
    then bs
    else if b.number == last.number
    then set_last bs b
    else bs ++ (b ∷ [])

abbrev pub covered : Option BlockCursor → BlockCursor → Bool
covered none b = false
covered (some f) b = leb b.number f.number

pub append_recent : Option BlockCursor → List BlockCursor → BlockCursor → List BlockCursor
unfolding append_last
append_recent watermark bs b = if covered watermark b then bs else append_last bs (last? bs) b

pub append_each : Option BlockCursor → List BlockCursor → List BlockCursor → List BlockCursor
append_each watermark bs [] = bs
append_each watermark bs (c ∷ cs) = append_each watermark (append_recent watermark bs c) cs

pub raise : Option BlockCursor → Option BlockCursor → Option BlockCursor
raise old none = old
raise none (some f) = some f
raise (some w) (some f) = if ltb w.number f.number then some f else some w

pub add_rollback_chain : Tracker → Option BlockCursor → List BlockCursor → Tracker
unfolding raise append_each prune_recent cap_recent
add_rollback_chain t finalized chain =
    let watermark = raise t.watermark finalized in
    record t {
      watermark = watermark;
      recent = cap_recent t.limit (append_each watermark (prune_recent watermark t.recent) chain);
    }

-- The last block of a chain, or the old value for an empty one.
abbrev pub last_or : Option BlockCursor → List BlockCursor → Option BlockCursor
last_or old [] = old
last_or old (b ∷ bs) = last? (b ∷ bs)

pub add_batch : Tracker → Option BlockCursor → List BlockCursor → Tracker
unfolding add_rollback_chain head_from_chain
add_batch t finalized chain =
    let added =
      add_rollback_chain (record t { current = last_or t.current chain }) finalized chain in
    record added { current = head_from_chain added }

first_unfinalized : ℕ → List BlockCursor → ℕ → Option ℕ
first_unfinalized n [] i = none
first_unfinalized n (b ∷ bs) i = if ltb n b.number then some i else first_unfinalized n bs (i + 1)

effective_at : Option ℕ → BlockCursor → List BlockCursor → Option BlockCursor
effective_at none h blocks = last? blocks
effective_at (some zero) h blocks = some h
effective_at (some (suc k)) h blocks = get_elem? blocks k

pub effective_finalized_head : Option BlockCursor → List BlockCursor → Option BlockCursor
unfolding first_unfinalized effective_at
effective_finalized_head none blocks = none
effective_finalized_head (some h) [] = some h
effective_finalized_head (some h) (b ∷ bs) =
    effective_at (first_unfinalized h.number (b ∷ bs) 0) h (b ∷ bs)

pub rollback_chain : Option BlockCursor → List BlockCursor → List BlockCursor
unfolding filter_recent
rollback_chain finalized blocks = filter_recent (λ b. not (covered finalized b)) blocks

-- `t.current` after a batch: its last block, or the finalized one where there is nothing else.
current_after : Option BlockCursor → Option BlockCursor → List BlockCursor → Option BlockCursor
current_after none effective [] = effective
current_after (some c) effective [] = some c
current_after old effective (b ∷ bs) = last? (b ∷ bs)

pub apply_batch : Tracker → Option BlockCursor → List BlockCursor → Tracker
unfolding current_after effective_finalized_head add_rollback_chain rollback_chain
apply_batch t finalized blocks =
    let effective = effective_finalized_head finalized blocks in
    add_rollback_chain (record t { current = current_after t.current effective blocks }) effective
      (rollback_chain effective blocks)

pub rollback_scan : List BlockCursor → List BlockCursor → ℕ → Option ℕ → Option ℕ
rollback_scan [] bs i last = last
rollback_scan (a ∷ as_) [] i last = last
rollback_scan (a ∷ as_) (b ∷ bs) i last = elim (ltb a.number b.number) [
  | true ↦ rollback_scan as_ (b ∷ bs) (i + 1) last
  | false ↦ elim (ltb b.number a.number) [
    | true ↦ rollback_scan (a ∷ as_) bs i last
    | false ↦ elim (same_hash a b) [ true ↦ rollback_scan as_ bs (i + 1) (some i) | false ↦ last ]
  ]
]

pub find_rollback_index : List BlockCursor → List BlockCursor → Option ℕ
unfolding rollback_scan
find_rollback_index a b = rollback_scan a b 0 none

all_before_loop : List BlockCursor → ℕ → Bool
all_before_loop [] n = true
all_before_loop (b ∷ bs) n = if leb n b.number then false else all_before_loop bs n

pub all_before : List BlockCursor → ℕ → Bool
unfolding all_before_loop
all_before [] n = false
all_before (b ∷ bs) n = all_before_loop (b ∷ bs) n

-- `currentChain`, with `recentStart`.
abbrev pub current_chain : Option BlockCursor → List BlockCursor → List BlockCursor
current_chain none recent = recent
current_chain (some f) recent = f ∷ recent

abbrev recent_start : Option BlockCursor → ℕ
recent_start none = 0
recent_start (some f) = 1

-- The failing end: the tracker forgets its blocks.
forget : Tracker → Option BlockCursor × Tracker
forget t = (none, record t { recent = []; current = none })

fork_below : Tracker → Option BlockCursor → List BlockCursor → Option BlockCursor × Tracker
unfolding forget
fork_below t none previous = forget t
fork_below t (some f) previous =
    if all_before previous f.number
    then (
      some f,
      record t { recent = filter_recent (λ b. leb b.number f.number) t.recent; current = some f },
    )
    else forget t

-- `chain[rollbackIndex]` is in range; a read out of range is the failing end here.
fork_to : Tracker → ℕ → Option BlockCursor → Option BlockCursor × Tracker
unfolding forget
fork_to t k none = forget t
fork_to t k (some safe) = (
  some safe,
  record t {
    recent =
        if ltb k (recent_start t.watermark)
        then []
        else drop (recent_start t.watermark) (take (k + 1) (current_chain t.watermark t.recent));
    current = some safe;
  },
)

-- The block is `none` where the Boolean result is false.
pub handle_fork : Tracker → List BlockCursor → Option BlockCursor × Tracker
unfolding fork_below fork_to find_rollback_index all_before
handle_fork t previous =
    let chain = current_chain t.watermark t.recent in
    elim (find_rollback_index chain previous) [
      | none ↦ fork_below t t.watermark previous
      | some k ↦ fork_to t k (get_elem? chain k)
    ]

-- The current block after a cut at `cursor`.
cut_current : Option BlockCursor → BlockCursor → Option BlockCursor
cut_current none cursor = none
cut_current (some c) cursor = if ltb cursor.number c.number then some cursor else some c

pub truncate_after : Tracker → BlockCursor → Tracker
unfolding cut_current filter_recent
truncate_after t cursor = record t {
  recent = filter_recent (λ b. leb b.number cursor.number) t.recent;
  current = cut_current t.current cursor;
}
