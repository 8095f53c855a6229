-- ===== src/AbiUnpack.antt =====
-- abiunpack/abiunpack.go: hex strings and ABI words of event data. Strings and byte slices are lists of
-- bytes. The outer `none` is a panic, on a slice out of range; the inner one is the result `false`.
-- go-ethereum and holiman/uint256 are the record `Packages`. Word indices are not negative, and sizes
-- do not reach the limit of Go's `int`.
pub mod Hex
pub mod Ranges
pub mod Arrays
mod Tests
use sqd_go.Base.{
  ℕ, zero, suc, ◌+◌, ◌-◌, ◌*◌, ◌/◌, ◌%◌, ◌^◌, Bool, true, false, ◌&&◌, ◌||◌, Option, none, some,
  List, [], ◌∷◌, ltb, leb, ◌==◌, if◌then◌else◌, bit_or, length, take, drop, get_elem?, ◌>>=◌,
}

-- What the code calls of the two packages: `SetBytes32`, `IsUint64` and `Uint64` of a `uint256.Int`,
-- and the conversions of `common`.
pub record Packages : Type 1 where
  pub Int : Type 0
  pub set_bytes32 : List ℕ → Int
  pub is_uint64 : Int → Bool
  pub uint64 : Int → ℕ
  pub hex_to_hash : List ℕ → List ℕ
  pub hex_to_address : List ℕ → List ℕ
  pub bytes_to_hash : List ℕ → List ℕ
  pub bytes_to_address : List ℕ → List ℕ

abbrev between : ℕ → ℕ → ℕ → Bool
between lo c hi = leb lo c && leb c hi

-- The table `hexNibble`: the digits are 48 to 57, the small letters 97 to 102, the large 65 to 70.
pub hex_nibble : ℕ → ℕ
hex_nibble c =
    if between 48 c 57
    then c - 48
    else if between 97 c 102
    then c - 97 + 10
    else if between 65 c 70
    then c - 65 + 10
    else 255

pub from_hex_char : ℕ → Option ℕ
unfolding hex_nibble
from_hex_char c = if hex_nibble c == 255 then none else some (hex_nibble c)

-- `hi<<4 | lo` on bytes.
abbrev pub join_nibbles : ℕ → ℕ → ℕ
join_nibbles hi lo = bit_or (hi * 16 % 256) lo

-- The optional `0x` or `0X`.
pub strip_prefix : List ℕ → List ℕ
strip_prefix [] = []
strip_prefix (a ∷ []) = a ∷ []
strip_prefix (a ∷ b ∷ s) = if (a == 48) && ((b == 120) || (b == 88)) then s else a ∷ b ∷ s

-- The loop of `AppendHexBytes`, which ends at a character that is not a hex digit with what it has.
-- The length is even there; a last single character is not reached.
pub append_pairs : List ℕ → List ℕ
append_pairs [] = []
append_pairs (h ∷ []) = []
append_pairs (h ∷ l ∷ s) =
    let rest = append_pairs s in
    elim (from_hex_char h) [
      | none ↦ []
      | some hi ↦ elim (from_hex_char l) [ none ↦ [] | some lo ↦ join_nibbles hi lo ∷ rest ]
    ]

append_odd : List ℕ → List ℕ
append_odd [] = []
append_odd (c ∷ s) = elim (from_hex_char c) [ none ↦ [] | some lo ↦ lo ∷ append_pairs s ]

-- The old bytes of `dst` do not stay.
pub append_hex_bytes : List ℕ → List ℕ
unfolding append_odd
append_hex_bytes s =
    let body = strip_prefix s in if length body % 2 == 1 then append_odd body else append_pairs body

-- The loop of `decodeCanonicalAddress` and `decodeCanonicalHash`, over a string of even length.
decode_pairs : List ℕ → Option (List ℕ)
decode_pairs [] = some []
decode_pairs (h ∷ []) = none
decode_pairs (h ∷ l ∷ s) = do
  hi ← from_hex_char h
  lo ← from_hex_char l
  rest ← decode_pairs s
  some (join_nibbles hi lo ∷ rest)

-- `decodeCanonicalAddress` for 20 bytes, `decodeCanonicalHash` and `decodeCanonicalTopic` for 32. The
-- destination has that length at each call, and is not read where the result is false.
pub decode_canonical : ℕ → List ℕ → Option (List ℕ)
unfolding decode_pairs
decode_canonical n s =
    let body = strip_prefix s in if length body == n * 2 then decode_pairs body else none

pub word : List ℕ → ℕ → Option (List ℕ)
word input index =
    let start = index * 32 in
    if ltb (length input) (start + 32) then none else some (take 32 (drop start input))

-- `data[a:b]`. Go allows an upper end within the capacity; here it is within the length, and `Ranges` shows
-- that it always is.
pub slice : List ℕ → ℕ → ℕ → Option (List ℕ)
slice input a b =
    if leb a b && leb b (length input) then some (take (b - a) (drop a input)) else none

-- The result of a decoder, and its `none` for false.
abbrev or_else : Option (List ℕ) → List ℕ → List ℕ
or_else none other = other
or_else (some bytes) other = bytes

aligned : ℕ → List ℕ → Option ℕ
aligned n input = if ltb (length input) n || not_zero (n % 32) then none else some n
  where
    not_zero : ℕ → Bool
    not_zero r = ltb 0 r

fits : List ℕ → ℕ → ℕ → Option (ℕ × ℕ)
fits input start n = if ltb (length input - (start + 32)) n then none else some (start + 32, n)

body_bytes : List ℕ → Option (ℕ × ℕ) → Option (Option (List ℕ))
body_bytes input none = some none
body_bytes input (some (start, n)) = do b ← slice input start (start + n); some (some b)

-- The loops of the four arrays: an element from `data[at+skip:at+32]`.
pub array_loop : {A : Type 0} → (List ℕ → Option A) → ℕ → List ℕ → ℕ → ℕ → Option (Option (List A))
array_loop item skip input at zero = some (some [])
array_loop item skip input at (suc n) =
    let rest = array_loop item skip input (at + 32) n in
    do
      b ← slice input (at + skip) (at + 32)
      elim (item b) [ none ↦ some none | some x ↦ do xs ← rest; some (xs >>= λ ys. some (x ∷ ys)) ]

array_at :
    {A : Type 0} → (List ℕ → Option A) → ℕ → List ℕ → Option (ℕ × ℕ) → Option (Option (List A))
array_at item skip input none = some none
array_at item skip input (some (start, n)) =
    if ltb ((length input - start) / 32) n then some none else array_loop item skip input start n

module _ (p : Packages) where
  unfoldable pub decode_topic_hash : List ℕ → List ℕ
  decode_topic_hash topic = or_else (decode_canonical 32 topic) (p.hex_to_hash topic)

  topic_is_one : Option ℕ → Bool
  topic_is_one none = false
  topic_is_one (some b) = b == 1

  -- `hash[31]` of an array of 32 bytes.
  unfoldable pub topic_bool : List ℕ → Bool
  unfolding topic_is_one
  topic_bool topic = topic_is_one (get_elem? (decode_topic_hash topic) 31)

  address_of_hash : Option (List ℕ) → List ℕ → List ℕ
  address_of_hash none topic = p.hex_to_address topic
  address_of_hash (some hash) topic = drop 12 hash

  pub decode_topic_address : List ℕ → List ℕ
  unfolding address_of_hash
  decode_topic_address topic = address_of_hash (decode_canonical 32 topic) topic

  pub decode_address_from_topic : List ℕ → List ℕ
  decode_address_from_topic topic =
      let body = strip_prefix topic in
      if length body == 64
      then or_else (decode_canonical 20 (drop 24 body)) (p.hex_to_address topic)
      else p.hex_to_address topic

  unfoldable pub address_from_hex : List ℕ → List ℕ
  address_from_hex s = or_else (decode_canonical 20 s) (p.hex_to_address s)

  unfoldable pub hash_from_hex : List ℕ → List ℕ
  hash_from_hex s = or_else (decode_canonical 32 s) (p.hex_to_hash s)

  unfoldable pub decode_topic_uint256 : List ℕ → p.Int
  decode_topic_uint256 topic = p.set_bytes32 (decode_topic_hash topic)

  small : p.Int → Option ℕ
  small n = if p.is_uint64 n then some (p.uint64 n) else none

  pub uint64_word : List ℕ → Option ℕ
  unfolding small
  uint64_word w = if length w == 32 then small (p.set_bytes32 w) else none

  unfoldable pub bool_word : List ℕ → Option Bool
  bool_word w = do n ← uint64_word w; if ltb 1 n then none else some (n == 1)

  pub offset : List ℕ → ℕ → Option ℕ
  unfolding aligned
  offset input head = do w ← word input head; n ← uint64_word w; aligned n input

  -- The body's start and the length.
  pub dynamic_word_range : List ℕ → ℕ → Option (ℕ × ℕ)
  unfolding fits
  dynamic_word_range input head = do
    start ← offset input head
    w ← word input (start / 32)
    n ← uint64_word w
    fits input start n

  pub bytes : List ℕ → ℕ → Option (Option (List ℕ))
  unfolding body_bytes
  bytes input head = body_bytes input (dynamic_word_range input head)

  pub word_array : {A : Type 0} → (List ℕ → Option A) → ℕ → List ℕ → ℕ → Option (Option (List A))
  unfolding array_at
  word_array item skip input head = array_at item skip input (dynamic_word_range input head)

  pub uint256_array : List ℕ → ℕ → Option (Option (List p.Int))
  uint256_array input head = word_array (λ w. some (p.set_bytes32 w)) 0 input head

  unfoldable pub address_array : List ℕ → ℕ → Option (Option (List (List ℕ)))
  address_array input head = word_array (λ b. some (p.bytes_to_address b)) 12 input head

  pub hash_array : List ℕ → ℕ → Option (Option (List (List ℕ)))
  hash_array input head = word_array (λ w. some (p.bytes_to_hash w)) 0 input head

  unfoldable pub bool_array : List ℕ → ℕ → Option (Option (List Bool))
  bool_array input head = word_array bool_word 0 input head
