-- ===== src/Replay/Writes.antt =====
-- `Write` and `WriteParsed` on the contents of the buffer, and `GetBlock`.
use native.Mathlib.Nat.{add-mod_right, mod-lt}
use sqd_go.Base.{
  ℕ, zero, suc, ◌+◌, ◌-◌, ◌%◌, ◌<◌, ◌≡◌, refl, ap, subst, ◌∙◌, inl, inr, true, false, ◌&&◌,
  Bool-cases, Option, none, some, List, [], ◌∷◌, ◌++◌, arith, ltb, ◌==◌, if◌then◌else◌, set, drop,
}
use sqd_go.Replay.{
  Kinds, BlockEntry, ReplayBuffer, Index, lookup, delete, put, slot, store, get_block,
}
use sqd_go.Replay.Positions.{run, contents}
use sqd_go.Replay.Index.{Below, find, indexed}
use sqd_go.Replay.Contents.{Window, IsValid, append-Window, tail-Window, appended}

module _ {K : Kinds} where
  -- What a write leaves of the entries: all, or all but the oldest of a full buffer.
  abbrev pub kept : ReplayBuffer K → List (BlockEntry K)
  kept rb = if rb.count == rb.capacity then drop 1 (contents rb) else contents rb

  -- A window that takes an entry at the next write position.
  grow :
      (slots : List (BlockEntry K)) (c w s n : ℕ) (m : Index) (e : BlockEntry K)
      → Window slots c s n m
      → n < c
      → s + n ≡ w + c
      → Below e.number (run slots c s n)
      → Window (set slots (w % c) e) c s (n + 1) (put m e.number (w % c))
        × (run (set slots (w % c) e) c s (n + 1) ≡ run slots c s n ++ (e ∷ []))
  grow slots c w s n m e v lt p b =
      let at : (s + n) % c ≡ w % c = ap (λ t. t % c) p ∙ add-mod_right w c in
      subst
        (λ q.
          Window (set slots q e) c s (n + 1) (put m e.number q)
          × (run (set slots q e) c s (n + 1) ≡ run slots c s n ++ (e ∷ [])))
        at (append-Window slots c s n m e v lt b, appended slots c s n e v.sized lt)

  store_partial :
      (rb : ReplayBuffer K) (e : BlockEntry K)
      → IsValid rb
      → (rb.count == rb.capacity) ≡ false
      → Below e.number (kept rb)
      → IsValid (store rb e) × (contents (store rb e) ≡ kept rb ++ (e ∷ []))
  unfolding store
  store_partial rb e v notfull b =
      let lt : rb.count < rb.capacity = ground (arith, v.within) in
      let more : ltb rb.count rb.capacity ≡ true = ground arith in
      let start : rb.write_pos + 1 + rb.capacity - (rb.count + 1)
          ≡ rb.write_pos + rb.capacity - rb.count =
        omega arith in
      let below : Below e.number (contents rb) =
        subst (λ t. Below e.number (if t then drop 1 (contents rb) else contents rb)) notfull b in
      rw (notfull, more, start)
        (grow rb.slots rb.capacity rb.write_pos (rb.write_pos + rb.capacity - rb.count) rb.count
          rb.index e v lt (omega arith) below)

  store_full :
      (rb : ReplayBuffer K) (e : BlockEntry K)
      → IsValid rb
      → (rb.count == rb.capacity) ≡ true
      → Below e.number (kept rb)
      → IsValid (store rb e) × (contents (store rb e) ≡ kept rb ++ (e ∷ []))
  unfolding store run
  store_full rb e v full b =
      let n = rb.capacity - 1 in
      let c = rb.capacity in
      let w = rb.write_pos in
      let slots = rb.slots in
      let m = rb.index in
      let less : ltb rb.count c ≡ false = ground arith in
      let count : rb.count ≡ suc n = ground (arith, v.room) in
      let start : w + c - suc n ≡ w = omega (arith, v.room) in
      let start' : w + 1 + c - suc n ≡ w + 1 = omega (arith, v.room) in
      let v' : Window slots c w (suc n) m =
        subst (λ t. Window slots c t (suc n) m) start
          (subst (λ t. Window slots c (w + c - t) t m) count v) in
      let b' : Below e.number (run slots c (w + 1) n) =
        subst (λ t. Below e.number (drop 1 (run slots c t (suc n)))) start
          (subst (λ t. Below e.number (drop 1 (run slots c (w + c - t) t))) count
            (subst (λ t. Below e.number (if t then drop 1 (contents rb) else contents rb)) full
              b)) in
      let grown =
        grow slots c w (w + 1) n _ e (tail-Window slots c w n m v') (omega (arith, v.room))
          (omega (arith, v.room)) b' in
      let one : n + 1 ≡ suc n = omega arith in
      rw (full, less, count, start', start)
        (subst
          (λ t.
            Window (set slots (w % c) e) c (w + 1) t
              (put (delete m (slot slots (w % c)).number) e.number (w % c))
            × (run (set slots (w % c) e) c (w + 1) t ≡ run slots c (w + 1) n ++ (e ∷ [])))
          one grown)

  -- On a valid buffer, a write of a block with a higher number than the kept entries adds it at their end;
  -- kept are all the entries, or all but the oldest where the buffer is full. The buffer stays valid.
  pub store-Stored :
      (rb : ReplayBuffer K) (e : BlockEntry K)
      → IsValid rb
      → Below e.number (kept rb)
      → IsValid (store rb e) × (contents (store rb e) ≡ kept rb ++ (e ∷ []))
  store-Stored rb e v b = elim (Bool-cases (rb.count == rb.capacity)) [
    | inl full ↦ store_full rb e v full b
    | inr notfull ↦ store_partial rb e v notfull b
  ]

  -- Where the map finds a number in a run, the slot has the entry.
  data Answer (slots : List (BlockEntry K)) (c n : ℕ)
      : Option ℕ → Option (BlockEntry K) → Type 0 where
    absent : Answer slots c n none none
    present :
        (p : ℕ)
        → p < c
        → (slot slots p).number ≡ n
        → Answer slots c n (some p) (some (slot slots p))

  lookup-Answer :
      (slots : List (BlockEntry K)) (c s n k : ℕ)
      → 0 < c
      → Answer slots c k (lookup (indexed c s (run slots c s n)) k) (find k (run slots c s n))
  unfolding indexed run find
  lookup-Answer slots c s zero k p = absent
  lookup-Answer slots c s (suc n) k p = elim (Bool-cases ((slot slots (s % c)).number == k)) [
    | inl yes_ ↦ rw yes_ (present (s % c) (mod-lt s p) (ground arith))
    | inr no_ ↦ rw no_ (lookup-Answer slots c (s + 1) n k p)
  ]

  checked :
      (slots : List (BlockEntry K)) (c n : ℕ) (o : Option ℕ) (r : Option (BlockEntry K))
      → Answer slots c n o r
      → elim o [
        | none ↦ none
        | some pos ↦
            if ltb pos c && ((slot slots pos).number == n) then some (slot slots pos) else none
      ]
        ≡ r
  checked slots c n _ _ absent = refl
  checked slots c n _ _ (present p lt e) =
      let inside : ltb p c ≡ true = ground arith in
      let same : ((slot slots p).number == n) ≡ true = ground arith in rw (inside, same) refl

  -- On a valid buffer, `GetBlock` returns the entry with the number among the contents, if there is one.
  pub get_block-find :
      (rb : ReplayBuffer K) (n : ℕ) → IsValid rb → get_block rb n ≡ find n (contents rb)
  unfolding get_block run find
  get_block-find rb n v = elim (Bool-cases (rb.count == 0)) [
    | inl yes_ ↦ let none_ : rb.count ≡ 0 = ground arith in rw none_ refl
    | inr no_ ↦
        rw (no_, v.exact n)
          (checked rb.slots rb.capacity n _ _
            (lookup-Answer rb.slots rb.capacity _ rb.count n v.room))
  ]
