-- ===== src/AbiUnpack/Ranges.antt =====
-- Where the dynamic fields lie: no slice is out of range.
use sqd_go.Base.{
  ℕ, zero, suc, ◌+◌, ◌-◌, ◌*◌, ◌/◌, ◌%◌, ◌≤◌, ◌≡◌, refl, Option, none, some, List, [], ◌∷◌, inl,
  inr, Bool-cases, Option-cases, arith, ltb, length, take, drop, ◌>>=◌,
}
use sqd_go.AbiUnpack.{
  Packages, word, slice, aligned, fits, uint64_word, offset, dynamic_word_range, body_bytes, bytes,
  array_loop, array_at, word_array,
}

-- A body of `n` bytes from `start` lies within the input, at a whole number of words.
pub record Within (input : List ℕ) (start n : ℕ) : Type 0 where
  pub after_head : 32 ≤ start
  pub inside : start + n ≤ length input
  pub whole : start % 32 ≡ 0

word-inside :
    (input : List ℕ) (i : ℕ) {w : List ℕ} → word input i ≡ some w → i * 32 + 32 ≤ length input
unfolding word
word-inside input i e = ground arith

aligned-whole :
    (n : ℕ) (input : List ℕ) {m : ℕ} → aligned n input ≡ some m → (m % 32 ≡ 0) × (m ≤ length input)
unfolding aligned
aligned-whole n input e = ground arith

module _ (p : Packages) where
  offset-whole :
      (input : List ℕ) (head : ℕ) {m : ℕ}
      → offset p input head ≡ some m
      → (m % 32 ≡ 0) × (m ≤ length input)
  unfolding offset
  offset-whole input head e = elim (Option-cases (word input head)) [
    | inl q ↦ cc (rw q at e)
    | inr (w, q) ↦ elim (Option-cases (uint64_word p w)) [
      | inl r ↦ cc (rw (q, r) at e)
      | inr (n, r) ↦ aligned-whole n input (rw (q, r) at e)
    ]
  ]

  fits-Within :
      (input : List ℕ) (at n : ℕ) {start m : ℕ}
      → at % 32 ≡ 0
      → at / 32 * 32 + 32 ≤ length input
      → fits input at n ≡ some (start, m)
      → Within input start m
  unfolding fits
  fits-Within input at n {start} {m} whole room e =
      elim (Bool-cases (ltb (length input - (at + 32)) n)) [
        | inl over ↦ cc (rw over at e)
        | inr fit ↦
            let pair : some (at + 32, n) ≡ some (start, m) = rw fit at e in
            let s : at + 32 ≡ start = cc pair in
            let k : n ≡ m = cc pair in
            record { after_head = omega arith; inside = ground arith; whole = omega arith }
      ]

  -- The range that `DynamicWordRange` returns lies within the data, after its first word, and starts at a
  -- whole number of words.
  pub dynamic_word_range-Within :
      (input : List ℕ) (head start n : ℕ)
      → dynamic_word_range p input head ≡ some (start, n)
      → Within input start n
  unfolding dynamic_word_range
  dynamic_word_range-Within input head start n e = elim (Option-cases (offset p input head)) [
    | inl q ↦ cc (rw q at e)
    | inr (at, q) ↦ elim (Option-cases (word input (at / 32))) [
      | inl r ↦ cc (rw (q, r) at e)
      | inr (w, r) ↦ elim (Option-cases (uint64_word p w)) [
        | inl u ↦ cc (rw (q, r, u) at e)
        | inr (m, u) ↦
            fits-Within input at m (offset-whole input head q).0 (word-inside input (at / 32) r)
              (rw (q, r, u) at e)
      ]
    ]
  ]

pub slice-within :
    (input : List ℕ) (a b : ℕ)
    → a ≤ b
    → b ≤ length input
    → slice input a b ≡ some (take (b - a) (drop a input))
unfolding slice
slice-within input a b le in_ = ground arith

-- What a decoder that does not panic gives: a refusal where there is no range, else the result.
abbrev range_bytes : List ℕ → Option (ℕ × ℕ) → Option (List ℕ)
range_bytes input none = none
range_bytes input (some (start, n)) = some (take n (drop start input))

body_of :
    (input : List ℕ) (o : Option (ℕ × ℕ))
    → ((start n : ℕ) → o ≡ some (start, n) → Within input start n)
    → body_bytes input o ≡ some (range_bytes input o)
unfolding body_bytes
body_of input none h = refl
body_of input (some (start, n)) h =
    let v = h start n refl in
    let size : start + n - start ≡ n = omega arith in
    rw (slice-within input start (start + n) (omega arith) v.inside, size)

array_loop-returns :
    {A : Type 0} (item : List ℕ → Option A) (skip : ℕ) (input : List ℕ) (n at : ℕ)
    → skip ≤ 32
    → at + n * 32 ≤ length input
    → (xs : Option (List A)) × (array_loop item skip input at n ≡ some xs)
unfolding array_loop
array_loop-returns item skip input zero at le h = (some [], refl)
array_loop-returns item skip input (suc n) at le h =
    let (xs, e) = array_loop-returns item skip input n (at + 32) le (omega arith) in
    let s = slice-within input (at + skip) (at + 32) (omega arith) (omega arith) in
    elim (Option-cases (item (take (at + 32 - (at + skip)) (drop (at + skip) input)))) [
      | inl q ↦ (none, rw (s, q, array_loop))
      | inr (x, q) ↦ ((xs >>= λ ys. some (x ∷ ys)), rw (s, q, e, array_loop))
    ]

array_at-returns :
    {A : Type 0} (item : List ℕ → Option A) (skip : ℕ) (input : List ℕ) (o : Option (ℕ × ℕ))
    → skip ≤ 32
    → ((start n : ℕ) → o ≡ some (start, n) → Within input start n)
    → (xs : Option (List A)) × (array_at item skip input o ≡ some xs)
unfolding array_at
array_at-returns item skip input none le h = (none, refl)
array_at-returns item skip input (some (start, n)) le h =
    elim (Bool-cases (ltb ((length input - start) / 32) n)) [
      | inl over ↦ (none, rw over)
      | inr fit ↦
          let v = h start n refl in
          let (xs, e) = array_loop-returns item skip input n start le (ground (arith, v.inside)) in
          (xs, rw fit e)
    ]

-- `Bytes` never panics, whatever the data: it refuses where there is no range, and else returns the
-- bytes of the range.
bytes-returns :
    (p : Packages) (input : List ℕ) (head : ℕ)
    → bytes p input head ≡ some (range_bytes input (dynamic_word_range p input head))
unfolding bytes
bytes-returns p input head =
    body_of input (dynamic_word_range p input head) (dynamic_word_range-Within p input head)

-- The decoder of arrays never panics, whatever the data, for any way to read an element from its word
-- or from a tail of it: it returns a list or refuses.
word_array-returns :
    {A : Type 0} (p : Packages) (item : List ℕ → Option A) (skip : ℕ) (input : List ℕ) (head : ℕ)
    → skip ≤ 32
    → (xs : Option (List A)) × (word_array p item skip input head ≡ some xs)
unfolding word_array
word_array-returns p item skip input head le =
    array_at-returns item skip input (dynamic_word_range p input head) le
      (dynamic_word_range-Within p input head)
