-- ===== src/AbiUnpack/Hex.antt =====
-- The hex decoders on the text that encodes bytes.
use sqd_go.Base.{
  ℕ, zero, suc, ◌+◌, ◌*◌, ◌/◌, ◌%◌, ◌<◌, ◌≡◌, refl, sym, ap, ◌∙◌, Bool, true, false, ◌&&◌, ◌||◌,
  some, List, [], ◌∷◌, inl, inr, Bool-cases, arith, ltb, ◌==◌, length, drop, if◌then◌else◌,
  length-drop, Option-cases,
}
use sqd_go.AbiUnpack.{
  Packages, hex_nibble, from_hex_char, join_nibbles, strip_prefix, append_pairs, append_hex_bytes,
  decode_pairs, decode_canonical, address_of_hash, decode_topic_address, decode_address_from_topic,
}

-- Each number is a byte.
abbrev pub AllBytes : List ℕ → Type 0
AllBytes [] = Unit {0}
AllBytes (b ∷ bs) = (b < 256) × AllBytes bs

-- The small hex digit of a number below 16.
abbrev hex_digit : ℕ → ℕ
hex_digit n = if ltb n 10 then n + 48 else n + 87

pub encode_hex : List ℕ → List ℕ
encode_hex [] = []
encode_hex (b ∷ bs) = hex_digit (b / 16) ∷ hex_digit (b % 16) ∷ encode_hex bs

abbrev pub prefixed : List ℕ → List ℕ
prefixed s = 48 ∷ 120 ∷ s

digit-round : (n : ℕ) → n < 16 → from_hex_char (hex_digit n) ≡ some n
unfolding from_hex_char hex_nibble
digit-round n h = ground arith

joins : ℕ → Bool
joins zero = true
joins (suc n) = (join_nibbles (n / 16) (n % 16) == n) && joins n

joins-at : (m n : ℕ) → joins m ≡ true → n < m → join_nibbles (n / 16) (n % 16) ≡ n
unfolding joins
joins-at zero n h lt = absurd (omega arith)
joins-at (suc m) n h lt = ground (arith, joins-at m n)

join-nibbles : (n : ℕ) → n < 256 → join_nibbles (n / 16) (n % 16) ≡ n
unfolding joins
join-nibbles n h = joins-at 256 n refl h

pairs-encode : (bs : List ℕ) → AllBytes bs → decode_pairs (encode_hex bs) ≡ some bs
unfolding decode_pairs encode_hex
pairs-encode [] a = refl
pairs-encode (b ∷ bs) (h, a) = rw (
  digit-round (b / 16) (omega arith),
  digit-round (b % 16) (omega arith),
  pairs-encode bs a,
  join-nibbles b h,
)

append_pairs-step :
    (h l : ℕ) {hi lo : ℕ}
    → from_hex_char h ≡ some hi
    → from_hex_char l ≡ some lo
    → (s : List ℕ) → append_pairs (h ∷ l ∷ s) ≡ join_nibbles hi lo ∷ append_pairs s
unfolding append_pairs
append_pairs-step h l p q s = rw (p, q, append_pairs)

append_pairs-encode : (bs : List ℕ) → AllBytes bs → append_pairs (encode_hex bs) ≡ bs
unfolding append_pairs encode_hex
append_pairs-encode [] a = refl
append_pairs-encode (b ∷ bs) (h, a) =
    append_pairs-step _ _ (digit-round (b / 16) (omega arith)) (digit-round (b % 16) (omega arith))
      (encode_hex bs)
    ∙ rw (join-nibbles b h, append_pairs-encode bs a)

length-encode : (bs : List ℕ) → length (encode_hex bs) ≡ length bs * 2
unfolding encode_hex
length-encode [] = refl
length-encode (b ∷ bs) = omega (arith, length-encode bs)

strip_prefix-encode : (bs : List ℕ) → strip_prefix (encode_hex bs) ≡ encode_hex bs
unfolding strip_prefix encode_hex
strip_prefix-encode [] = refl
strip_prefix-encode (b ∷ bs) = elim (Bool-cases (hex_digit (b / 16) == 48)) [
  | inl zero_digit ↦ rw (not_x (b % 16) (omega arith), zero_digit)
  | inr other ↦ rw (not_x (b % 16) (omega arith), other)
]
  where
    not_x : (n : ℕ) → n < 16 → ((hex_digit n == 120) || (hex_digit n == 88)) ≡ false
    not_x n h = ground arith

canonical-body :
    (n : ℕ) (s bs : List ℕ)
    → AllBytes bs
    → length bs ≡ n
    → strip_prefix s ≡ encode_hex bs
    → (decode_canonical n s ≡ some bs) × (append_hex_bytes s ≡ bs)
unfolding decode_canonical append_hex_bytes
canonical-body n s bs a len e =
    let even : (length (encode_hex bs) % 2 == 1) ≡ false = ground (arith, length-encode bs) in
    let exact : (length (encode_hex bs) == n * 2) ≡ true = ground (arith, length-encode bs) in
    (rw (e, exact) (pairs-encode bs a), rw (e, even) (append_pairs-encode bs a))

prefixed-encode : (bs : List ℕ) → strip_prefix (prefixed (encode_hex bs)) ≡ encode_hex bs
unfolding strip_prefix
prefixed-encode bs = refl

-- The hex text of `n` bytes decodes to these bytes, with and without `0x`, by the decoder of fixed
-- length and by `AppendHexBytes`.
pub decode_canonical-encode_hex :
    (n : ℕ) (bs : List ℕ)
    → AllBytes bs
    → length bs ≡ n
    → (decode_canonical n (encode_hex bs) ≡ some bs)
      × (append_hex_bytes (encode_hex bs) ≡ bs)
      × (decode_canonical n (prefixed (encode_hex bs)) ≡ some bs)
      × (append_hex_bytes (prefixed (encode_hex bs)) ≡ bs)
decode_canonical-encode_hex n bs a len =
    let (plain, plain') = canonical-body n (encode_hex bs) bs a len (strip_prefix-encode bs) in
    let (x, x') = canonical-body n (prefixed (encode_hex bs)) bs a len (prefixed-encode bs) in
    (plain, plain', x, x')

drop-encode : (k : ℕ) (bs : List ℕ) → drop (k * 2) (encode_hex bs) ≡ encode_hex (drop k bs)
unfolding encode_hex
drop-encode zero bs = refl
drop-encode (suc k) bs = ap (λ n. drop n (encode_hex bs)) (twice k) ∙ below k bs (drop-encode k)
  where
    twice : (n : ℕ) → suc n * 2 ≡ suc (suc (n * 2))
    twice n = omega arith

    below :
        (n : ℕ) (cs : List ℕ)
        → ((ds : List ℕ) → drop (n * 2) (encode_hex ds) ≡ encode_hex (drop n ds))
        → drop (suc (suc (n * 2))) (encode_hex cs) ≡ encode_hex (drop (suc n) cs)
    below n [] h = refl
    below n (c ∷ cs) h = h cs

AllBytes-drop : (k : ℕ) (bs : List ℕ) → AllBytes bs → AllBytes (drop k bs)
AllBytes-drop zero bs a = a
AllBytes-drop (suc k) [] a = tt
AllBytes-drop (suc k) (b ∷ bs) a = AllBytes-drop k bs a.1

-- On the hex text of a topic of 32 bytes, the fast `DecodeAddressFromTopic` and `DecodeTopicAddress`
-- both return its last 20 bytes, with and without `0x`.
decode_address_from_topic_lem :
    (p : Packages) (bs : List ℕ)
    → AllBytes bs
    → length bs ≡ 32
    → (decode_address_from_topic p (encode_hex bs) ≡ drop 12 bs)
      × (decode_topic_address p (encode_hex bs) ≡ drop 12 bs)
      × (decode_address_from_topic p (prefixed (encode_hex bs)) ≡ drop 12 bs)
      × (decode_topic_address p (prefixed (encode_hex bs)) ≡ drop 12 bs)
unfolding decode_address_from_topic decode_topic_address address_of_hash
decode_address_from_topic_lem p bs a len =
    let (plain, _, x, _) = decode_canonical-encode_hex 32 bs a len in
    let exact : (length (encode_hex bs) == 64) ≡ true = ground (arith, length-encode bs) in
    let tail : decode_canonical 20 (drop 24 (encode_hex bs)) ≡ some (drop 12 bs) =
      rw (drop-encode 12 bs)
        (decode_canonical-encode_hex 20 (drop 12 bs) (AllBytes-drop 12 bs a)
          (omega (arith, length-drop 12 bs))).0 in
    (rw (strip_prefix-encode bs, exact, tail), rw plain, rw (prefixed-encode bs, exact, tail), rw x)

nibble-lt : (c n : ℕ) → from_hex_char c ≡ some n → n < 16
unfolding from_hex_char hex_nibble
nibble-lt c n e = ground arith

joined : ℕ → ℕ → Bool
joined hi zero = true
joined hi (suc lo) = ltb (join_nibbles hi lo) 256 && joined hi lo

all_joined : ℕ → Bool
all_joined zero = true
all_joined (suc hi) = joined hi 16 && all_joined hi

joined-lt : (m hi lo : ℕ) → joined hi m ≡ true → lo < m → join_nibbles hi lo < 256
unfolding joined
joined-lt zero hi lo h lt = absurd (omega arith)
joined-lt (suc m) hi lo h lt = ground (arith, joined-lt m hi lo)

all_joined-at : (m hi : ℕ) → all_joined m ≡ true → hi < m → joined hi 16 ≡ true
unfolding all_joined
all_joined-at zero hi h lt = absurd (omega arith)
all_joined-at (suc m) hi h lt = ground (arith, all_joined-at m hi)

join-lt : (hi lo : ℕ) → hi < 16 → lo < 16 → join_nibbles hi lo < 256
unfolding all_joined joined
join-lt hi lo h l = joined-lt 16 hi lo (all_joined-at 16 hi refl h) l

pairs-AllBytes :
    (s bs : List ℕ) → decode_pairs s ≡ some bs → AllBytes bs × (length s ≡ length bs * 2)
unfolding decode_pairs
pairs-AllBytes [] bs e = ground arith
pairs-AllBytes (h ∷ []) bs e = cc
pairs-AllBytes (h ∷ l ∷ s) bs e = elim (Option-cases (from_hex_char h)) [
  | inl p ↦ cc (rw p at e)
  | inr (hi, p) ↦ elim (Option-cases (from_hex_char l)) [
    | inl q ↦ cc (rw (p, q) at e)
    | inr (lo, q) ↦ elim (Option-cases (decode_pairs s)) [
      | inl r ↦ cc (rw (p, q, r) at e)
      | inr (rest, r) ↦
          let is : join_nibbles hi lo ∷ rest ≡ bs = cc (rw (p, q, r) at e) in
          let (a, len) = pairs-AllBytes s rest r in
          rw (sym is) ((join-lt hi lo (nibble-lt h hi p) (nibble-lt l lo q), a), omega arith)
    ]
  ]
]

-- What the decoder of fixed length accepts is exactly `n` bytes.
decode_canonical-AllBytes :
    (n : ℕ) (s bs : List ℕ) → decode_canonical n s ≡ some bs → AllBytes bs × (length bs ≡ n)
unfolding decode_canonical
decode_canonical-AllBytes n s bs e = elim (Bool-cases (length (strip_prefix s) == n * 2)) [
  | inl exact ↦
      let (a, len) = pairs-AllBytes (strip_prefix s) bs (rw exact at e) in (a, ground arith)
  | inr other ↦ cc (rw other at e)
]
