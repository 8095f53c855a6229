-- ===== src/Replay/Finalize.antt =====
-- `PruneBefore`, on the contents of the buffer.
use native.Mathlib.Nat.{mod-add-mod}
use sqd_go.Base.{
  ℕ, zero, suc, ◌+◌, ◌-◌, ◌%◌, ◌<◌, ◌≡◌, refl, sym, ap, subst, ◌∙◌, inl, inr, true, Bool-cases,
  List, [], ◌∷◌, arith, ltb, ◌==◌, if◌then◌else◌, set, length, length-set,
}
use sqd_go.Replay.{Kinds, BlockEntry, ReplayBuffer, delete, empty_entry, slot, oldest}
use sqd_go.Replay.Pruning.{before_loop, prune_before}
use sqd_go.Replay.Positions.{mod-ne, run, contents, run-set}
use sqd_go.Replay.Index.{From, from_nil, from_cons}
use sqd_go.Replay.Contents.{Window, IsValid, tail-Window}

module _ {K : Kinds} where
  -- The entries above a number.
  unfoldable pub above : ℕ → List (BlockEntry K) → List (BlockEntry K)
  above n [] = []
  above n (e ∷ es) = let rest = above n es in if ltb n e.number then e ∷ rest else rest

  pub above-all :
      (n bound : ℕ) (es : List (BlockEntry K)) → From bound es → n < bound → above n es ≡ es
  unfolding above
  above-all n bound [] from_nil h = refl
  above-all n bound (_ ∷ _) (from_cons e es l f) h =
      let large : ltb n e.number ≡ true = ground arith in
      rw large (ap (◌∷◌ e) (above-all n (e.number + 1) es f (omega arith)))

  pub above-head :
      (n bound : ℕ) (e : BlockEntry K) (es : List (BlockEntry K))
      → From bound (e ∷ es)
      → ltb n e.number ≡ true
      → above n (e ∷ es) ≡ e ∷ es
  unfolding above
  above-head n bound e es (from_cons _ _ l f) h =
      rw h (ap (◌∷◌ e) (above-all n (e.number + 1) es f (ground arith)))

  -- What the loop leaves: the entries above the number, in a valid buffer, and how many went.
  record Dropped (rb : ReplayBuffer K) (n pruned : ℕ) (r : ReplayBuffer K × ℕ) : Type 0 where
    valid : IsValid r.0
    entries : contents r.0 ≡ above n (contents rb)
    total : r.1 + length (above n (contents rb)) ≡ pruned + length (contents rb)

  -- The buffer after a round of the loop that clears the slot at `pos`.
  abbrev cleared : ReplayBuffer K → ℕ → ReplayBuffer K
  cleared rb pos = record rb {
    index = delete rb.index (slot rb.slots pos).number;
    slots = set rb.slots pos empty_entry;
    count = rb.count - 1;
  }

  cleared-Window :
      (rb : ReplayBuffer K) (n : ℕ)
      → rb.count ≡ suc n
      → IsValid rb
      → let start = rb.write_pos + rb.capacity - rb.count in
        let pos = start % rb.capacity in
        IsValid (cleared rb pos) × (contents rb ≡ slot rb.slots pos ∷ contents (cleared rb pos))
  unfolding run
  cleared-Window rb n e v =
      let c = rb.capacity in
      let start = rb.write_pos + c - rb.count in
      let pos = start % c in
      let count : rb.count - 1 ≡ n = omega arith in
      let next : rb.write_pos + c - n ≡ start + 1 = omega (arith, v.within) in
      let t =
        tail-Window rb.slots c start n rb.index
          (subst (λ k. Window rb.slots c start k rb.index) e v) in
      let same : run (set rb.slots pos empty_entry) c (start + 1) n ≡ run rb.slots c (start + 1) n =
        run-set rb.slots c (start + 1) n pos empty_entry (λ i l k.
          mod-ne c start (i + 1) (omega arith) (omega (arith, v.within))
            (k ∙ ap (λ q. q % c) {x = start + 1 + i} (omega arith))) in
      let w : Window (set rb.slots pos empty_entry) c (start + 1) n
          (delete rb.index (slot rb.slots pos).number) =
        record {
          sized = length-set rb.slots pos empty_entry ∙ v.sized;
          room = v.room;
          within = t.within;
          ascending = rw same t.ascending;
          exact = λ k. rw same (t.exact k);
        } in
      (rw (count, next) w, rw (count, next, same) (ap (run rb.slots c start) e))

  before_loop-Dropped :
      (fb n : ℕ) (rb : ReplayBuffer K) (pos pruned : ℕ)
      → rb.count ≡ n
      → IsValid rb
      → pos ≡ (rb.write_pos + rb.capacity - rb.count) % rb.capacity
      → Dropped rb fb pruned (before_loop fb n rb pos pruned)
  unfolding before_loop run above
  before_loop-Dropped fb zero rb pos pruned e v p = record {
    valid = v;
    entries = rw e refl;
    total = rw e (omega arith);
  }
  before_loop-Dropped fb (suc n) rb pos pruned e v p =
      let c = rb.capacity in
      let start = rb.write_pos + c - rb.count in
      let first = slot rb.slots (start % c) in
      let rb' = cleared rb (start % c) in
      let (w, split) = cleared-Window rb n e v in
      let rest =
        before_loop-Dropped fb n rb' ((start % c + 1) % c) (pruned + 1) (omega arith) w
          (mod-add-mod start c 1 ∙ ap (λ t. t % c) {x = start + 1} (omega (arith, v.within))) in
      let counted : length (contents rb) ≡ suc (length (contents rb')) = ap length split in
      rw p (elim (Bool-cases (ltb fb first.number)) [
        | inl yes_ ↦
            let all : above fb (contents rb) ≡ contents rb =
              ap (above fb) split
              ∙ above-head fb 0 first (contents rb') (subst (From 0) split v.ascending) yes_
              ∙ sym split in
            rw yes_ (record { valid = v; entries = sym all; total = rw all refl })
        | inr no_ ↦
            let fewer : above fb (contents rb) ≡ above fb (contents rb') =
              ap (above fb) split ∙ rw no_ refl in
            rw no_ (record {
              valid = rest.valid;
              entries = rest.entries ∙ sym fewer;
              total = rw fewer (rest.total ∙ omega (arith, counted));
            })
      ])

  -- On a valid buffer, `PruneBefore` leaves the entries above the number, in order, and returns how many
  -- it removed. The buffer stays valid.
  pub prune_before-above :
      (rb : ReplayBuffer K) (n : ℕ)
      → IsValid rb
      → IsValid (prune_before rb n).0
        × (contents (prune_before rb n).0 ≡ above n (contents rb))
        × ((prune_before rb n).1 + length (contents (prune_before rb n).0) ≡ length (contents rb))
  unfolding prune_before run above
  prune_before-above rb n v = elim (Bool-cases (rb.count == 0)) [
    | inl yes_ ↦ let none_ : rb.count ≡ 0 = ground arith in rw yes_ (v, rw none_ refl, omega arith)
    | inr no_ ↦
        let d = before_loop-Dropped n rb.count rb (oldest rb) 0 refl v refl in
        rw no_ (d.valid, d.entries, rw d.entries (d.total ∙ omega arith))
  ]
