-- ===== src/AbiUnpack/Arrays.antt =====
-- The array decoders on data that encodes an array.
use sqd_go.Base.{
  ℕ, zero, suc, ◌+◌, ◌-◌, ◌*◌, ◌/◌, ◌≡◌, refl, sym, ap, ◌∙◌, false, some, List, [], ◌∷◌, ◌++◌,
  arith, ltb, length, take, drop, map, length-append, append_assoc,
}
use sqd_go.AbiUnpack.{
  Packages, word, slice, aligned, fits, uint64_word, offset, dynamic_word_range, array_loop,
  array_at, word_array, hash_array, uint256_array,
}
use sqd_go.AbiUnpack.Ranges.{slice-within}

-- Each element is a word of 32 bytes.
abbrev AllWords : List (List ℕ) → Type 0
AllWords [] = Unit {0}
AllWords (w ∷ ws) = (length w ≡ 32) × AllWords ws

unfoldable pub joined : List (List ℕ) → List ℕ
joined [] = []
joined (w ∷ ws) = w ++ joined ws

take-front : (w rest : List ℕ) (n : ℕ) → length w ≡ n → take n (w ++ rest) ≡ w
take-front [] rest n h = rw (sym h)
take-front (x ∷ w) rest zero h = absurd (omega arith)
take-front (x ∷ w) rest (suc n) h = ap (◌∷◌ x) (take-front w rest n (omega arith))

drop-front : (w rest : List ℕ) (n : ℕ) → length w ≡ n → drop n (w ++ rest) ≡ rest
drop-front [] rest n h = rw (sym h)
drop-front (x ∷ w) rest zero h = absurd (omega arith)
drop-front (x ∷ w) rest (suc n) h = drop-front w rest n (omega arith)

length-joined : (ws : List (List ℕ)) → AllWords ws → length (joined ws) ≡ length ws * 32
unfolding joined
length-joined [] a = refl
length-joined (w ∷ ws) (h, a) = omega (arith, length-append w (joined ws), length-joined ws a)

slice-front :
    (pre w rest : List ℕ) (at : ℕ)
    → length pre ≡ at
    → length w ≡ 32
    → slice (pre ++ (w ++ rest)) at (at + 32) ≡ some w
slice-front pre w rest at e h =
    let size : at + 32 - at ≡ 32 = omega arith in
    slice-within (pre ++ (w ++ rest)) at (at + 32) (omega arith)
      (omega (arith, length-append pre (w ++ rest), length-append w rest))
    ∙ rw (size, drop-front pre (w ++ rest) at e) (ap some (take-front w rest 32 h))

array_loop-step :
    {A : Type 0} (f : List ℕ → A) (input w : List ℕ) (at n : ℕ)
    → slice input at (at + 32) ≡ some w
    → (xs : List A) → array_loop (λ v. some (f v)) 0 input (at + 32) n ≡ some (some xs)
    → array_loop (λ v. some (f v)) 0 input at (suc n) ≡ some (some (f w ∷ xs))
unfolding array_loop
array_loop-step f input w at n s xs e =
    let same : at + 0 ≡ at = omega arith in rw (same, s, e, array_loop)

array_loop-words :
    {A : Type 0} (f : List ℕ → A) (ws : List (List ℕ)) (input pre rest : List ℕ) (at : ℕ)
    → AllWords ws
    → input ≡ pre ++ (joined ws ++ rest)
    → length pre ≡ at
    → array_loop (λ v. some (f v)) 0 input at (length ws) ≡ some (some (map f ws))
unfolding array_loop joined
array_loop-words f [] input pre rest at a e h = refl
array_loop-words f (w ∷ ws) input pre rest at (size, a) e h =
    let here : input ≡ pre ++ (w ++ (joined ws ++ rest)) =
      e ∙ ap (λ z. pre ++ z) (append_assoc w (joined ws) rest) in
    let next_start : input ≡ (pre ++ w) ++ (joined ws ++ rest) =
      here ∙ sym (append_assoc pre w (joined ws ++ rest)) in
    array_loop-step f input w at (length ws)
      (rw here (slice-front pre w (joined ws ++ rest) at h size)) (map f ws)
      (array_loop-words f ws input (pre ++ w) rest (at + 32) a next_start
        (omega (arith, length-append pre w)))

pub word-front :
    (pre w rest : List ℕ) (i : ℕ)
    → length pre ≡ i * 32
    → length w ≡ 32
    → word (pre ++ (w ++ rest)) i ≡ some w
unfolding word
word-front pre w rest i e h =
    let room : ltb (length (pre ++ (w ++ rest))) (i * 32 + 32) ≡ false =
      ground (arith, length-append pre (w ++ rest), length-append w rest) in
    rw (room, drop-front pre (w ++ rest) (i * 32) e) (ap some (take-front w rest 32 h))

module _ (p : Packages) (o l : List ℕ) (ws : List (List ℕ)) (rest : List ℕ) where
  abbrev pub encoded : List ℕ
  encoded = o ++ (l ++ (joined ws ++ rest))

  range-encoded :
      length o ≡ 32
      → length l ≡ 32
      → AllWords ws
      → uint64_word p o ≡ some 32
      → uint64_word p l ≡ some (length ws)
      → (dynamic_word_range p encoded 0 ≡ some (64, length ws))
        × (ltb ((length encoded - 64) / 32) (length ws) ≡ false)
  unfolding dynamic_word_range offset aligned fits
  range-encoded ho hl a eo el =
      let len : length encoded ≡ 64 + (length ws * 32 + length rest) = omega (
        arith,
        length-append o (l ++ (joined ws ++ rest)),
        length-append l (joined ws ++ rest),
        length-append (joined ws) rest,
        length-joined ws a,
      ) in
      let first : word encoded 0 ≡ some o = word-front [] o (l ++ (joined ws ++ rest)) 0 refl ho in
      let second : word encoded 1 ≡ some l = word-front o l (joined ws ++ rest) 1 ho hl in
      let low : ltb (length encoded) 32 ≡ false = ground (arith, len) in
      let room : ltb (length encoded - 64) (length ws) ≡ false = ground (arith, len) in
      (rw (first, eo, low, second, el, room), ground (arith, len))

-- Data that holds the word for 32, the word for the number of elements, and then the elements decode
-- to the elements, whatever follows: `HashArray` and `Uint256Array` read each word in turn. The two
-- words are those that the package reads as these numbers.
pub array-encoded :
    (p : Packages) (o l : List ℕ) (ws : List (List ℕ)) (rest : List ℕ)
    → length o ≡ 32
    → length l ≡ 32
    → AllWords ws
    → uint64_word p o ≡ some 32
    → uint64_word p l ≡ some (length ws)
    → (hash_array p (o ++ (l ++ (joined ws ++ rest))) 0 ≡ some (some (map p.bytes_to_hash ws)))
      × (uint256_array p (o ++ (l ++ (joined ws ++ rest))) 0 ≡ some (some (map p.set_bytes32 ws)))
unfolding hash_array uint256_array word_array array_at
array-encoded p o l ws rest ho hl a eo el =
    let (range, room) = range-encoded p o l ws rest ho hl a eo el in
    let at : length (o ++ l) ≡ 64 = omega (arith, length-append o l) in
    let split : o ++ (l ++ (joined ws ++ rest)) ≡ (o ++ l) ++ (joined ws ++ rest) =
      sym (append_assoc o l (joined ws ++ rest)) in
    (
      rw (range, room) (array_loop-words p.bytes_to_hash ws _ (o ++ l) rest 64 a split at),
      rw (range, room) (array_loop-words p.set_bytes32 ws _ (o ++ l) rest 64 a split at),
    )
