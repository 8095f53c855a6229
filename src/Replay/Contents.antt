-- ===== src/Replay/Contents.antt =====
-- What the operations of the buffer do to its contents.
use native.Mathlib.Nat.{mod-lt}
use sqd_go.Base.{
  ℕ, suc, ◌+◌, ◌-◌, ◌%◌, ◌≤◌, ◌<◌, ◌≡◌, refl, sym, ap, ◌∙◌, List, [], ◌∷◌, ◌++◌, arith, set, length,
  length-set,
}
use sqd_go.Replay.{Kinds, BlockEntry, ReplayBuffer, Index, lookup, delete, put, slot}
use sqd_go.Replay.Positions.{mod-ne, run, slot-set_self, run-set, run-snoc, length-run}
use sqd_go.Replay.Index.{From, Below, indexed, From-rest, From-snoc, indexed-snoc, indexed-tail}

-- The slots are as many as the capacity, the entries ascend, and the map has the position of each of them
-- and nothing else. The entries are the `n` from position `s` on.
pub record Window {K : Kinds} (slots : List (BlockEntry K)) (c s n : ℕ) (m : Index) : Type 0 where
  pub sized : length slots ≡ c
  pub room : 0 < c
  pub within : n ≤ c
  pub ascending : From 0 (run slots c s n)
  pub exact : (k : ℕ) → lookup m k ≡ lookup (indexed c s (run slots c s n)) k

abbrev pub IsValid : {K : Kinds} → ReplayBuffer K → Type 0
IsValid rb = Window rb.slots rb.capacity (rb.write_pos + rb.capacity - rb.count) rb.count rb.index

module _ {K : Kinds} where
  pub appended :
      (slots : List (BlockEntry K)) (c s n : ℕ) (e : BlockEntry K)
      → length slots ≡ c
      → n < c
      → run (set slots ((s + n) % c) e) c s (n + 1) ≡ run slots c s n ++ (e ∷ [])
  appended slots c s n e z lt =
      let p = (s + n) % c in
      let bound : p < c = mod-lt (s + n) (omega arith) in
      let others = run-set slots c s n p e (λ i l k.
        mod-ne c (s + i) (n - i) (omega arith) (omega arith)
          (sym k ∙ ap (λ t. t % c) {x = s + n} {y = s + i + (n - i)} (omega arith))) in
      ap (run (set slots p e) c s) {x = n + 1} {y = suc n} (omega arith)
      ∙ run-snoc (set slots p e) c s n
      ∙ rw (others, slot-set_self slots p e (omega arith)) refl

  pub append-Window :
      (slots : List (BlockEntry K)) (c s n : ℕ) (m : Index) (e : BlockEntry K)
      → Window slots c s n m
      → n < c
      → Below e.number (run slots c s n)
      → Window (set slots ((s + n) % c) e) c s (n + 1) (put m e.number ((s + n) % c))
  append-Window slots c s n m e v lt b =
      let new_run = appended slots c s n e v.sized lt in
      record {
        sized = length-set slots ((s + n) % c) e ∙ v.sized;
        room = v.room;
        within = omega arith;
        ascending = rw new_run (From-snoc (run slots c s n) e v.ascending b (omega arith));
        exact = λ k. rw new_run (
            indexed-snoc c s k m (run slots c s n) e ((s + n) % c) b
              (ap (λ t. (s + t) % c) (sym (length-run slots c s n))) v.exact);
      }

  pub tail-Window :
      (slots : List (BlockEntry K)) (c s n : ℕ) (m : Index)
      → Window slots c s (suc n) m
      → Window slots c (s + 1) n (delete m (slot slots (s % c)).number)
  unfolding run
  tail-Window slots c s n m v =
      let first = slot slots (s % c) in
      record {
        sized = v.sized;
        room = v.room;
        within = omega (arith, v.within);
        ascending = From-rest first _ v.ascending;
        exact = λ k. indexed-tail c s k m first (run slots c (s + 1) n) v.ascending v.exact;
      }
