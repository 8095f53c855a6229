-- ===== src/Replay/Prune.antt =====
-- `PruneAfter` with `rebuildIndexLocked`, on the contents of the buffer.
use native.Mathlib.Nat.{mod-add-mod, mod-mod, add-mod_right}
use sqd_go.Base.{
  ℕ, zero, suc, ◌+◌, ◌-◌, ◌%◌, ◌≤◌, ◌<◌, ◌≡◌, ◌≢◌, refl, sym, ap, subst, ◌∙◌, inl, inr, Bool-cases,
  Option, none, some, List, [], ◌∷◌, arith, leb, ◌==◌, length,
}
use sqd_go.Replay.{Kinds, BlockEntry, ReplayBuffer, Index, lookup, put, slot, oldest, oldest_pos}
use sqd_go.Replay.Pruning.{rebuild_loop, rebuild_index, prune_after}
use sqd_go.Replay.Positions.{run, contents, run-mod, length-run}
use sqd_go.Replay.Index.{
  From, from_nil, from_cons, indexed, lookup-indexed_before, From-weaken, lookup-put_self,
  lookup-put_ne,
}
use sqd_go.Replay.Contents.{IsValid}
use sqd_go.Replay.Forks.{up_to, Pruned, after_loop-Pruned}

abbrev or_else : Option ℕ → Option ℕ → Option ℕ
or_else none o = o
or_else (some v) o = some v

or_else-none : (o : Option ℕ) → or_else o none ≡ o
or_else-none none = refl
or_else-none (some v) = refl

-- A window that starts `m` before a write position `m` after `s` starts at `s`.
start_again : (c s m : ℕ) → m ≤ c → ((s + m) % c + c - m) % c ≡ (s + 0) % c
start_again c s m h =
    ap (λ t. t % c) {x = (s + m) % c + c - m} {y = (s + m) % c + (c - m)} (omega arith)
    ∙ mod-add-mod (s + m) c (c - m)
    ∙ ap (λ t. t % c) {x = s + m + (c - m)} {y = s + 0 + c} (omega arith)
    ∙ add-mod_right (s + 0) c

module _ {K : Kinds} where
  pub oldest_pos_lem : (rb : ReplayBuffer K) → oldest_pos rb ≡ oldest rb
  oldest_pos_lem rb = elim (Bool-cases (rb.count == 1)) [
    | inl yes_ ↦ let one : rb.count ≡ 1 = ground arith in rw (yes_, one) refl
    | inr no_ ↦ rw no_ refl
  ]

  indexed-mod :
      (c s t : ℕ) (es : List (BlockEntry K)) → s % c ≡ t % c → indexed c s es ≡ indexed c t es
  unfolding indexed
  indexed-mod c s t [] h = refl
  indexed-mod c s t (e ∷ es) h =
      let next : (s + 1) % c ≡ (t + 1) % c =
        sym (mod-add-mod s c 1) ∙ ap (λ k. (k + 1) % c) h ∙ mod-add-mod t c 1 in
      rw (h, indexed-mod c (s + 1) (t + 1) es next) refl

  rebuild_loop-lookup :
      (slots : List (BlockEntry K)) (c s n i bound k : ℕ) (m : Index)
      → From bound (run slots c (s + i) n)
      → lookup (rebuild_loop slots c s n i m) k
        ≡ or_else (lookup (indexed c (s + i) (run slots c (s + i) n)) k) (lookup m k)
  unfolding rebuild_loop indexed run
  rebuild_loop-lookup slots c s zero i bound k m f = refl
  rebuild_loop-lookup slots c s (suc n) i bound k m (from_cons _ _ l f) =
      let at = (s + i) % c in
      let num = (slot slots at).number in
      let next : s + (i + 1) ≡ s + i + 1 = omega arith in
      let hyp = rebuild_loop-lookup slots c s n (i + 1) (num + 1) k (put m num at) (rw next f) in
      let later : lookup (rebuild_loop slots c s n (i + 1) (put m num at)) k
          ≡ or_else (lookup (indexed c (s + i + 1) (run slots c (s + i + 1) n)) k)
              (lookup (put m num at) k) =
        subst
          (λ t.
            lookup (rebuild_loop slots c s n (i + 1) (put m num at)) k
            ≡ or_else (lookup (indexed c t (run slots c t n)) k) (lookup (put m num at) k))
          next hyp in
      elim (Bool-cases (num == k)) [
        | inl yes_ ↦
            let same : num ≡ k = ground arith in
            let put_ : lookup (put m num at) k ≡ some at =
              subst (λ t. lookup (put m num at) t ≡ some at) same (lookup-put_self m num at) in
            let gone =
              lookup-indexed_before c (s + i + 1) k (run slots c (s + i + 1) n) f (omega arith) in
            later ∙ rw (gone, put_, yes_) refl
        | inr no_ ↦
            let other : num ≢ k = ground arith in
            later ∙ rw (lookup-put_ne m num at k other, no_) refl
      ]

  rebuilt :
      (slots : List (BlockEntry K)) (c s t n k : ℕ)
      → s % c ≡ t % c
      → From 0 (run slots c t n)
      → lookup (rebuild_loop slots c s n 0 []) k ≡ lookup (indexed c t (run slots c t n)) k
  rebuilt slots c s t n k h f =
      let e : (s + 0) % c ≡ t % c = ap (λ q. q % c) {x = s + 0} {y = s} (omega arith) ∙ h in
      let same = run-mod slots c (s + 0) t n e in
      rebuild_loop-lookup slots c s n 0 0 k [] (rw same f)
      ∙ or_else-none (lookup (indexed c (s + 0) (run slots c (s + 0) n)) k)
      ∙ rw (same, indexed-mod c (s + 0) t (run slots c t n) e) refl

  -- After `rebuildIndexLocked` the buffer is valid, whatever the map was.
  rebuild_index-IsValid :
      (rb : ReplayBuffer K)
      → length rb.slots ≡ rb.capacity
      → 0 < rb.capacity
      → rb.count ≤ rb.capacity
      → From 0 (contents rb)
      → IsValid (rebuild_index rb) × (contents (rebuild_index rb) ≡ contents rb)
  unfolding rebuild_index run indexed
  rebuild_index-IsValid rb z p w f =
      let start = rb.write_pos + rb.capacity - rb.count in
      let around : oldest_pos rb % rb.capacity ≡ start % rb.capacity =
        ap (λ t. t % rb.capacity) (oldest_pos_lem rb) ∙ mod-mod start rb.capacity in
      elim (Bool-cases (rb.count == 0)) [
        | inl yes_ ↦
            let none_ : rb.count ≡ 0 = ground arith in
            rw yes_ (
              record { sized = z; room = p; within = w; ascending = f; exact = λ k. rw none_ refl },
              refl,
            )
        | inr no_ ↦ rw no_ (
          record {
            sized = z;
            room = p;
            within = w;
            ascending = f;
            exact = λ k. rebuilt rb.slots rb.capacity (oldest_pos rb) start rb.count k around f;
          },
          refl,
        )
      ]

  up_to-From : (b bound : ℕ) (es : List (BlockEntry K)) → From bound es → From bound (up_to b es)
  unfolding up_to
  up_to-From b bound [] from_nil = from_nil
  up_to-From b bound (_ ∷ _) (from_cons e es l f) = elim (Bool-cases (leb e.number b)) [
    | inl yes_ ↦ rw yes_ (from_cons e _ l (up_to-From b (e.number + 1) es f))
    | inr no_ ↦ rw no_ (From-weaken _ (omega arith) (up_to-From b (e.number + 1) es f))
  ]

  length-up_to : (b : ℕ) (es : List (BlockEntry K)) → length (up_to b es) ≤ length es
  unfolding up_to
  length-up_to b [] = omega arith
  length-up_to b (e ∷ es) = ground (arith, length-up_to b es)

  -- What the loop of `PruneAfter` leaves is rebuilt into a valid buffer.
  pruned :
      (rb : ReplayBuffer K) (s n : ℕ) (r : List (BlockEntry K) × ℕ)
      → IsValid rb
      → run rb.slots rb.capacity (s + 0) rb.count ≡ contents rb
      → Pruned rb.slots rb.capacity (s + 0) rb.count n r 0
      → let rb' : ReplayBuffer K = record rb {
        slots = r.0;
        count = r.1;
        write_pos = (s + r.1) % rb.capacity;
      } in
        IsValid (rebuild_index rb') × (contents (rebuild_index rb') ≡ up_to n (contents rb))
  pruned rb s n r v same p =
      let c = rb.capacity in
      let rb' : ReplayBuffer K = record rb {
        slots = r.0;
        count = r.1;
        write_pos = (s + r.1) % c;
      } in
      let total : r.1 ≡ length (up_to n (contents rb)) = p.total ∙ rw same (omega arith) in
      let bound : r.1 ≤ c = omega (
        arith,
        total,
        length-up_to n (contents rb),
        v.within,
        length-run rb.slots c (rb.write_pos + c - rb.count) rb.count,
      ) in
      let entries : contents rb' ≡ up_to n (contents rb) =
        run-mod r.0 c ((s + r.1) % c + c - r.1) (s + 0) r.1 (start_again c s r.1 bound)
        ∙ ap (run r.0 c (s + 0)) total
        ∙ subst (λ t. run r.0 c (s + 0) (length (up_to n t)) ≡ up_to n t) same p.entries in
      let (valid, kept) =
        rebuild_index-IsValid rb' (p.sized ∙ v.sized) v.room bound
          (rw entries (up_to-From n 0 (contents rb) v.ascending)) in
      (valid, kept ∙ entries)

  entries_up_to :
      (rb : ReplayBuffer K) (n : ℕ)
      → IsValid rb
      → IsValid (prune_after rb n) × (contents (prune_after rb n) ≡ up_to n (contents rb))
  unfolding prune_after run up_to
  entries_up_to rb n v =
      let c = rb.capacity in
      let start = rb.write_pos + c - rb.count in
      let s = oldest_pos rb in
      let around : (s + 0) % c ≡ start % c =
        ap (λ t. t % c) {x = s + 0} {y = oldest rb} (omega (arith, oldest_pos_lem rb))
        ∙ mod-mod start c in
      elim (Bool-cases (rb.count == 0)) [
        | inl yes_ ↦ let none_ : rb.count ≡ 0 = ground arith in rw yes_ (v, rw none_ refl)
        | inr no_ ↦
            let same : run rb.slots c (s + 0) rb.count ≡ contents rb =
              run-mod rb.slots c (s + 0) start rb.count around in
            let p =
              after_loop-Pruned n c s rb.count 0 rb.slots 0 0 v.within (rw same v.ascending) in
            rw no_ (pruned rb s n _ v same p)
      ]

  rebuild_index-writes : (rb : ReplayBuffer K) → (rebuild_index rb).writes ≡ rb.writes
  unfolding rebuild_index
  rebuild_index-writes rb = ground arith

  prune_after-writes : (rb : ReplayBuffer K) (n : ℕ) → (prune_after rb n).writes ≡ rb.writes
  unfolding prune_after
  prune_after-writes rb n = elim (Bool-cases (rb.count == 0)) [
    | inl yes_ ↦ rw yes_ refl
    | inr no_ ↦ rw no_ (search rebuild_index-writes)
  ]

  -- On a valid buffer, `PruneAfter` leaves the entries up to the number, in order, and does not change
  -- `writes`. The buffer stays valid.
  pub prune_after-up_to :
      (rb : ReplayBuffer K) (n : ℕ)
      → IsValid rb
      → IsValid (prune_after rb n)
        × (contents (prune_after rb n) ≡ up_to n (contents rb))
        × ((prune_after rb n).writes ≡ rb.writes)
  prune_after-up_to rb n v =
      let (valid, entries) = entries_up_to rb n v in (valid, entries, prune_after-writes rb n)
