-- ===== src/AbiUnpack/Tests.antt =====
-- The theorems on ABI data at concrete data, with a big-endian reading of words.
use sqd_go.Base.{ℕ, ◌+◌, ◌*◌, ◌%◌, ◌^◌, ◌≡◌, refl, some, List, [], ◌∷◌, ◌++◌, arith, ltb, replicate}
use sqd_go.AbiUnpack.{
  Packages, strip_prefix, from_hex_char, offset, word, decode_canonical, append_hex_bytes,
  dynamic_word_range, uint64_word, hash_array, uint256_array,
}
use sqd_go.AbiUnpack.Hex.{encode_hex, prefixed, decode_canonical-encode_hex}
use sqd_go.AbiUnpack.Arrays.{joined, array-encoded}

big_endian : ℕ → List ℕ → ℕ
big_endian n [] = n
big_endian n (b ∷ bs) = big_endian (n * 256 + b) bs

abbrev packages : Packages
packages = record {
  Int = ℕ;
  set_bytes32 = λ w. big_endian 0 w;
  is_uint64 = λ n. ltb n (2 ^ 64);
  uint64 = λ n. n % 2 ^ 64;
  hex_to_hash = λ s. s;
  hex_to_address = λ s. s;
  bytes_to_hash = λ w. w;
  bytes_to_address = λ w. w;
}

abbrev number : ℕ → List ℕ
number n = replicate 31 0 ++ (n ∷ [])

abbrev topic : List ℕ
topic = replicate 12 0 ++ replicate 20 171

abbrev two_words : List ℕ
two_words = number 32 ++ (number 2 ++ (joined (number 7 ∷ number 9 ∷ []) ++ []))

two_words-range : dynamic_word_range packages two_words 0 ≡ some (64, 2)
unfolding dynamic_word_range big_endian joined offset word uint64_word
two_words-range = refl

hex_two : decode_canonical 2 (48 ∷ 65 ∷ 102 ∷ 102 ∷ []) ≡ some (10 ∷ 255 ∷ [])
unfolding decode_canonical strip_prefix from_hex_char
hex_two = refl

decode_canonical-encode_hex_example :
    (decode_canonical 2 (encode_hex (10 ∷ 255 ∷ [])) ≡ some (10 ∷ 255 ∷ []))
    × (append_hex_bytes (encode_hex (10 ∷ 255 ∷ [])) ≡ 10 ∷ 255 ∷ [])
    × (decode_canonical 2 (prefixed (encode_hex (10 ∷ 255 ∷ []))) ≡ some (10 ∷ 255 ∷ []))
    × (append_hex_bytes (prefixed (encode_hex (10 ∷ 255 ∷ []))) ≡ 10 ∷ 255 ∷ [])
decode_canonical-encode_hex_example =
    decode_canonical-encode_hex 2 (10 ∷ 255 ∷ []) (omega arith, (omega arith, tt)) refl

reads_two : uint64_word packages (number 2) ≡ some 2
unfolding uint64_word big_endian
reads_two = refl

reads_32 : uint64_word packages (number 32) ≡ some 32
unfolding uint64_word big_endian
reads_32 = refl

array-encoded_example :
    (hash_array packages two_words 0 ≡ some (some (number 7 ∷ number 9 ∷ [])))
    × (uint256_array packages two_words 0
        ≡ some (some (big_endian 0 (number 7) ∷ big_endian 0 (number 9) ∷ [])))
array-encoded_example =
    array-encoded packages (number 32) (number 2) (number 7 ∷ number 9 ∷ []) [] refl refl
      (refl, (refl, tt)) reads_32 reads_two
