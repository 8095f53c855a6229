-- ===== src/Arena/Copy.antt =====
-- `AllocateCopy` writes its source into the new slice and nowhere else; the other ways to move on keep
-- the arena valid.
use sqd_go.Base.{
  ℕ, zero, suc, ◌+◌, ◌-◌, ◌≤◌, ◌≡◌, ◌≢◌, refl, sym, ap, ◌∙◌, List, [], ◌∷◌, ◌++◌, Option, none,
  some, inl, inr, arith, ltb, ◌==◌, ==_iff, Bool-cases, length, last?, replicate, length-append,
  last?-append, get_elem?, last?-get_elem?, set_last, set, set_last-set, last?-set_last,
  length-set_last, get_elem?-set_self, get_elem?-set_ne, take, drop, length-take, length-drop,
}
use sqd_go.Arena.{
  Arena, Slice, allocate_unsafe, write_at, write_last, copy_into, allocate_copy, read, reset,
  grow_to, grow_current, max,
}
use sqd_go.Arena.Allocate.{allocate_same}
use sqd_go.Arena.Contents.{IsValid, IsLive, Disjoint, Handed, allocate_unsafe-Handed}

take-through : (k s : ℕ) (c ys : List ℕ) → k ≤ s → s ≤ length c → take k (take s c ++ ys) ≡ take k c
take-through zero s c ys p q = refl
take-through (suc k) zero c ys p q = absurd (omega arith)
take-through (suc k) (suc s) [] ys p q = absurd (omega arith)
take-through (suc k) (suc s) (x ∷ c) ys p q =
    ap (◌∷◌ x) (take-through k s c ys (omega arith) (omega arith))

read_below :
    (i k s : ℕ) (c ys : List ℕ)
    → i + k ≤ s
    → s ≤ length c
    → take k (drop i (take s c ++ ys)) ≡ take k (drop i c)
read_below zero k s c ys p q = take-through k s c ys (omega arith) q
read_below (suc i) k zero c ys p q = absurd (omega arith)
read_below (suc i) k (suc s) [] ys p q = absurd (omega arith)
read_below (suc i) k (suc s) (x ∷ c) ys p q = read_below i k s c ys (omega arith) (omega arith)

take-prefix : (xs ys : List ℕ) → take (length xs) (xs ++ ys) ≡ xs
take-prefix [] ys = refl
take-prefix (x ∷ xs) ys = ap (◌∷◌ x) (take-prefix xs ys)

drop-prefix : (s : ℕ) (c ys : List ℕ) → s ≤ length c → drop s (take s c ++ ys) ≡ ys
drop-prefix zero c ys h = refl
drop-prefix (suc s) [] ys h = absurd (omega arith)
drop-prefix (suc s) (x ∷ c) ys h = drop-prefix s c ys (omega arith)

read_own :
    (s : ℕ) (c src : List ℕ) → s ≤ length c → take (length src) (drop s (write_at c s src)) ≡ src
unfolding write_at
read_own s c src h = rw (drop-prefix s c (src ++ drop (s + length src) c) h) (take-prefix src _)

length-write_at :
    (c : List ℕ) (s : ℕ) (src : List ℕ)
    → s + length src ≤ length c
    → length (write_at c s src) ≡ length c
unfolding write_at
length-write_at c s src h = omega (
  arith,
  length-append (take s c) (src ++ drop (s + length src) c),
  length-append src (drop (s + length src) c),
  length-take s c,
  length-drop (s + length src) c,
)

-- The outcome of copying `src` into a new slice.
pub record Copied (a : Arena) (src : List ℕ) (o : Option (Option Slice × Arena)) : Type 0 where
  pub slice : Slice
  pub arena : Arena
  pub returned : o ≡ some (some slice, arena)
  pub valid : IsValid arena
  pub live : IsLive arena slice
  pub written : read arena slice ≡ some src
  pub old_live : (t : Slice) → IsLive a t → IsLive arena t
  pub old_bytes : (t : Slice) → IsLive a t → read arena t ≡ read a t
  pub old_apart : (t : Slice) → IsLive a t → Disjoint t slice

module _ (a : Arena) (src : List ℕ) (s : Slice) (a' : Arena)
    (h : Handed a (length src) (s, a')) where
  after_chunk : List ℕ
  after_chunk = write_at h.current s.start src

  after : Arena
  after = record a' { chunks = set_last a'.chunks after_chunk }

  last_index : s.chunk ≡ length a'.chunks - 1
  last_index = omega (arith, h.last_chunk)

  at_last : get_elem? a'.chunks s.chunk ≡ some h.current
  at_last = ap (get_elem? a'.chunks) last_index ∙ sym (last?-get_elem? a'.chunks) ∙ h.is_last

  now_last : get_elem? (set_last a'.chunks after_chunk) s.chunk ≡ some after_chunk
  now_last =
      ap (λ l. get_elem? l s.chunk)
        (set_last-set a'.chunks after_chunk
          ∙ ap (λ k. set a'.chunks k after_chunk) (sym last_index))
      ∙ get_elem?-set_self a'.chunks s.chunk after_chunk (omega (arith, h.last_chunk))

  not_last :
      (t : Slice)
      → s.chunk ≢ t.chunk
      → get_elem? (set_last a'.chunks after_chunk) t.chunk ≡ get_elem? a'.chunks t.chunk
  not_last t ne =
      ap (λ l. get_elem? l t.chunk)
        (set_last-set a'.chunks after_chunk
          ∙ ap (λ k. set a'.chunks k after_chunk) (sym last_index))
      ∙ get_elem?-set_ne a'.chunks after_chunk ne

  room : s.start + length src ≤ length h.current
  room = omega (arith, h.ends, h.fits)

  same_length : length after_chunk ≡ length h.current
  unfolding after_chunk
  same_length = length-write_at h.current s.start src room

  kept-IsLive : (t : Slice) → IsLive a' t → IsLive after t
  unfolding after
  kept-IsLive t l = elim (Bool-cases (s.chunk == t.chunk)) [
    | inl same ↦
        let same' : s.chunk ≡ t.chunk = (==_iff s.chunk t.chunk).0 same in
        let one : h.current ≡ l.bytes = cc (ap (get_elem? a'.chunks) same', at_last, l.found) in
        record {
          bytes = after_chunk;
          found = ap (get_elem? (set_last a'.chunks after_chunk)) (sym same') ∙ now_last;
          inside = omega (arith, l.inside, same_length, ap length one);
          before = λ p. l.before (p ∙ length-set_last a'.chunks after_chunk);
        }
    | inr other ↦ record {
      bytes = l.bytes;
      found = not_last t (λ p. cc ((==_iff s.chunk t.chunk).1 p)) ∙ l.found;
      inside = l.inside;
      before = λ p. l.before (p ∙ length-set_last a'.chunks after_chunk);
    }
  ]

  kept_bytes : (t : Slice) → IsLive a' t → Disjoint t s → read after t ≡ read a' t
  unfolding after read after_chunk write_at
  kept_bytes t l apart = elim (Bool-cases (s.chunk == t.chunk)) [
    | inl same ↦
        let same' : s.chunk ≡ t.chunk = (==_iff s.chunk t.chunk).0 same in
        let one : h.current ≡ l.bytes = cc (ap (get_elem? a'.chunks) same', at_last, l.found) in
        let there : get_elem? (set_last a'.chunks after_chunk) t.chunk ≡ some after_chunk =
          ap (get_elem? (set_last a'.chunks after_chunk)) (sym same') ∙ now_last in
        rw (there, l.found)
          (ap some (
            read_below t.start t.size s.start h.current _ (below apart same') (omega (arith, room))
            ∙ ap (λ c. take t.size (drop t.start c)) one))
    | inr other ↦ rw (not_last t (λ p. cc ((==_iff s.chunk t.chunk).1 p)))
  ]
    where
      below : Disjoint t s → s.chunk ≡ t.chunk → t.start + t.size ≤ s.start
      below (inl ne) e = absurd (ne (sym e))
      below (inr le) e = le

  copied : IsValid after × IsLive after s × (read after s ≡ some src)
  unfolding after read after_chunk
  copied = (
    rw last_is (omega (arith, h.fits, same_length)),
    record {
      bytes = after_chunk;
      found = now_last;
      inside = omega (arith, room, same_length, h.sized);
      before = λ p. omega (arith, h.ends, h.sized);
    },
    rw (now_last, h.sized) (ap some (own (omega (arith, room)))),
  )
    where
      own : s.start ≤ length h.current → take (length src) (drop s.start after_chunk) ≡ src
      own q = read_own s.start h.current src q

      last_is : last? (set_last a'.chunks after_chunk) ≡ some after_chunk
      last_is =
          last?-set_last a'.chunks after_chunk
            (λ e. absurd (omega (arith, h.last_chunk, ap length e)))

-- Copying a source that is not empty into an arena succeeds. The slice reads as the source. Each slice
-- that was handed out before, and not reset since, is still good, reads as it did, and shares no byte
-- with the new one. The arena stays valid.
pub allocate_copy-Copied :
    (a : Arena) (b : ℕ) (bs : List ℕ) → Copied a (b ∷ bs) (allocate_copy a (b ∷ bs))
unfolding allocate_copy copy_into write_last after after_chunk
allocate_copy-Copied a b bs =
    let src : List ℕ = b ∷ bs in
    let s = (allocate_unsafe a (length src)).0 in
    let a' = (allocate_unsafe a (length src)).1 in
    let h = allocate_unsafe-Handed a (length src) in
    let (valid, live, written) = copied a src s a' h in
    rw (allocate_same a (length src), h.is_last)
      (record {
        slice = s;
        arena = after a src s a' h;
        returned = refl;
        valid = valid;
        live = live;
        written = written;
        old_live = λ t l. kept-IsLive a src s a' h t (h.old_live t l);
        old_bytes =
            λ t l. kept_bytes a src s a' h t (h.old_live t l) (h.old_apart t l) ∙ h.old_bytes t l;
        old_apart = h.old_apart;
      })

reset_chunks-IsValid :
    (cs : List (List ℕ)) (o z : ℕ)
    → let a : Arena = record { chunks = cs; offset = o; chunk_size = z } in
      IsValid a → IsValid (reset a) × ((reset a).offset ≡ 0)
unfolding reset
reset_chunks-IsValid [] o z v = (v, v)
reset_chunks-IsValid (c ∷ cs) o z v = (omega arith, refl)

grow-IsValid :
    (a : Arena) (n : ℕ) (o : Option (List ℕ))
    → last? a.chunks ≡ o
    → IsValid a
    → IsValid (grow_current a n o)
unfolding grow_current
grow-IsValid a n none e v =
    let at : a.offset ≡ 0 = rw e at v in
    rw (last?-append a.chunks (replicate (max n a.chunk_size) 0)) (omega arith)
grow-IsValid a n (some c) e v = elim (Bool-cases (ltb (length c) n)) [
  | inl short ↦ rw (short, last?-append a.chunks (replicate (max n a.chunk_size) 0)) (omega arith)
  | inr fits ↦ rw fits v
]

-- `Reset` and `GrowTo` keep an arena valid, and after `Reset` nothing is used.
reset-IsValid :
    (a : Arena) (n : ℕ)
    → IsValid a
    → IsValid (reset a) × ((reset a).offset ≡ 0) × IsValid (grow_to a n)
unfolding grow_to
reset-IsValid a n v =
    let (kept, empty) = reset_chunks-IsValid a.chunks a.offset a.chunk_size v in
    (kept, empty, grow-IsValid a n (last? a.chunks) refl v)
