-- ===== src/Arena/Contents.antt =====
-- What an allocation hands out and what it leaves alone.
use sqd_go.Base.{
  ℕ, zero, suc, ◌+◌, ◌-◌, ◌≤◌, ◌<◌, ◌≡◌, ◌≢◌, ◌⊎◌, refl, ◌∙◌, List, [], ◌∷◌, ◌++◌, Option, none,
  some, inl, inr, arith, leb, leb→le, ◌==◌, ==_iff, Bool-cases, length, last?, replicate,
  length-replicate, length-append, last?-append, get_elem?, get_elem?-append_left,
}
use sqd_go.Arena.{Arena, Slice, grown_size, bump, add_chunk, allocate_unsafe, read}

abbrev WithinLast : Option (List ℕ) → ℕ → Type 0
WithinLast none offset = offset ≡ 0
WithinLast (some c) offset = offset ≤ length c

-- The offset is within the current chunk, and 0 where there is none.
abbrev pub IsValid : Arena → Type 0
IsValid a = WithinLast (last? a.chunks) a.offset

-- A slice that was handed out and not reset since.
pub record IsLive (a : Arena) (s : Slice) : Type 0 where
  pub bytes : List ℕ
  pub found : get_elem? a.chunks s.chunk ≡ some bytes
  pub inside : s.start + s.size ≤ length bytes
  pub before : suc s.chunk ≡ length a.chunks → s.start + s.size ≤ a.offset

abbrev pub Disjoint : Slice → Slice → Type 0
Disjoint s t = (s.chunk ≢ t.chunk) ⊎ (s.start + s.size ≤ t.start)

-- What an allocation of `n` bytes has done.
pub record Handed (a : Arena) (n : ℕ) (r : Slice × Arena) : Type 0 where
  pub current : List ℕ
  pub is_last : last? r.1.chunks ≡ some current
  pub last_chunk : suc r.0.chunk ≡ length r.1.chunks
  pub sized : r.0.size ≡ n
  pub ends : r.0.start + n ≡ r.1.offset
  pub fits : r.1.offset ≤ length current
  pub old_live : (t : Slice) → IsLive a t → IsLive r.1 t
  pub old_bytes : (t : Slice) → IsLive a t → read r.1 t ≡ read a t
  pub old_apart : (t : Slice) → IsLive a t → Disjoint t r.0

get_elem?-lt : {A : Type 0} (xs : List A) (k : ℕ) {x : A} → get_elem? xs k ≡ some x → k < length xs
get_elem?-lt [] k e = cc
get_elem?-lt (x ∷ xs) zero e = omega arith
get_elem?-lt (x ∷ xs) (suc k) e = omega (arith, get_elem?-lt xs k e)

last-nonempty : {A : Type 0} (xs : List A) {x : A} → last? xs ≡ some x → 0 < length xs
last-nonempty [] e = cc
last-nonempty (x ∷ xs) e = omega arith

bump-Handed :
    (a : Arena) (n : ℕ) (c : List ℕ)
    → last? a.chunks ≡ some c
    → a.offset + n ≤ length c
    → Handed a n (bump a n)
unfolding read
bump-Handed a n c e room = record {
  current = c;
  is_last = e;
  last_chunk = omega (arith, last-nonempty a.chunks e);
  sized = refl;
  ends = refl;
  fits = room;
  old_live = λ t l. record {
    bytes = l.bytes;
    found = l.found;
    inside = l.inside;
    before = λ p. omega (arith, l.before p);
  };
  old_bytes = λ t l. refl;
  old_apart = apart;
}
  where
    apart : (t : Slice) → IsLive a t → Disjoint t (bump a n).0
    apart t l = elim (Bool-cases (t.chunk == length a.chunks - 1)) [
      | inl same ↦
          let same' : suc t.chunk ≡ length a.chunks = ground (arith, last-nonempty a.chunks e) in
          inr (l.before same')
      | inr other ↦ inl (λ p. cc ((==_iff t.chunk (length a.chunks - 1)).1 p))
    ]

grow-Handed :
    (a : Arena) (n size : ℕ)
    → n ≤ size
    → Handed a n (
      record { chunk = length (add_chunk a size).chunks - 1; start = 0; size = n },
      record (add_chunk a size) { offset = n },
    )
unfolding read
grow-Handed a n size le = record {
  current = replicate size 0;
  is_last = last?-append a.chunks (replicate size 0);
  last_chunk = omega (arith, len);
  sized = refl;
  ends = omega arith;
  fits = omega (arith, length-replicate {A = ℕ} size 0);
  old_live = λ t l. record {
    bytes = l.bytes;
    found = kept t l ∙ l.found;
    inside = l.inside;
    before = λ p. absurd (omega (arith, len, get_elem?-lt a.chunks t.chunk l.found));
  };
  old_bytes = λ t l. rw (kept t l);
  old_apart = λ t l. inl (λ p. absurd (omega (arith, len, get_elem?-lt a.chunks t.chunk l.found)));
}
  where
    len : length (a.chunks ++ (replicate size 0 ∷ [])) ≡ length a.chunks + 1
    len = length-append a.chunks (replicate size 0 ∷ [])

    kept :
        (t : Slice)
        → IsLive a t
        → get_elem? (a.chunks ++ (replicate size 0 ∷ [])) t.chunk ≡ get_elem? a.chunks t.chunk
    kept t l = get_elem?-append_left a.chunks _ t.chunk (get_elem?-lt a.chunks t.chunk l.found)

pub allocate_unsafe-Handed : (a : Arena) (n : ℕ) → Handed a n (allocate_unsafe a n)
unfolding allocate_unsafe
allocate_unsafe-Handed a n = by_last (last? a.chunks) refl
  where
    fresh : n ≤ grown_size n a.chunk_size
    fresh = ground arith

    by_last : (o : Option (List ℕ)) → last? a.chunks ≡ o → Handed a n (allocate_unsafe a n)
    by_last none e = rw e (grow-Handed a n (grown_size n a.chunk_size) fresh)
    by_last (some c) e = elim (Bool-cases (leb (a.offset + n) (length c))) [
      | inl room ↦ rw (e, room) (bump-Handed a n c e (leb→le _ _ room))
      | inr full ↦ rw (e, full) (grow-Handed a n (grown_size n a.chunk_size) fresh)
    ]
