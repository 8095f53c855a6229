-- ===== src/Decoder/Tests.antt =====
-- The theorems on the decoders at a small configuration.
use sqd_go.Base.{
  ℕ, ◌+◌, ◌*◌, ◌%◌, ◌^◌, ◌≡◌, refl, true, false, none, some, List, [], ◌∷◌, ◌++◌, inr, ltb,
  replicate, bytes_equal,
}
use sqd_go.AbiUnpack
use sqd_go.AbiUnpack.Arrays.{joined}
use sqd_go.Decoder.{
  Text, Packages, EventDef, LogFilter, ContractConfig, Argument, uint_ty, lowered, has_key,
  event_name_from_sig, event_to_abi_json, merge_addresses, dedupe_strings, dedupe_loop,
  dedupe_filters,
}
use sqd_go.Decoder.Building.{Decoders, build_event_decoder, find_event}
use sqd_go.Decoder.Matching.{takes, configured, build_event_decoder-takes}
use sqd_go.Decoder.Filters.{DistinctKeys, dedupe_strings-keys}
use sqd_go.Decoder.Unpacking.{fast_unpack, number}
use sqd_go.Decoder.Static.{Row, words, assigned, fast_unpack-static}

abbrev packages : Packages
packages = record {
  abi_json = λ j. some (λ name. some (record { sig = name; inputs = [] }));
  keccak256 = λ sig. sig;
  hash_hex = λ t. t;
  to_lower = λ t. t;
  trim_space = λ t. t;
  fields = λ t. t ∷ [];
  itoa = λ n. [];
}

-- Two contracts with one event, `A()`.
abbrev contracts : List ContractConfig
contracts =
    record { address = (b'p' ∷ []) ∷ []; events = (b'A' ∷ b'(' ∷ b')' ∷ []) ∷ [] }
    ∷ record { address = (b'q' ∷ []) ∷ []; events = (b'A' ∷ b'(' ∷ b')' ∷ []) ∷ [] }
    ∷ []

abbrev decoders : Decoders
decoders =
    (
      b'A' ∷ [],
      record {
        event_name = b'A' ∷ [];
        topic0 = b'A' ∷ [];
        abi_event = record { sig = b'A' ∷ []; inputs = [] };
        indexed = [];
        addresses = (b'p' ∷ []) ∷ (b'q' ∷ []) ∷ [];
      },
    )
    ∷ []

abbrev filters : List LogFilter
filters =
    record { address = (b'p' ∷ []) ∷ []; topic0 = (b'A' ∷ []) ∷ [] }
    ∷ record { address = (b'q' ∷ []) ∷ []; topic0 = (b'A' ∷ []) ∷ [] }
    ∷ []

contracts-built : build_event_decoder packages contracts ≡ inr (decoders, filters)
unfolding build_event_decoder find_event event_name_from_sig event_to_abi_json merge_addresses
    dedupe_strings dedupe_loop dedupe_filters has_key bytes_equal
contracts-built = refl

build_event_decoder-takes_example :
    takes packages decoders (b'A' ∷ []) (b'q' ∷ [])
    ≡ configured packages contracts (b'A' ∷ []) (b'q' ∷ [])
build_event_decoder-takes_example =
    build_event_decoder-takes packages contracts decoders filters contracts-built (b'A' ∷ [])
      (b'q' ∷ [])

dedupe_strings-keys_example :
    ((k : Text)
      → has_key k (lowered packages (dedupe_strings packages ((1 ∷ []) ∷ (2 ∷ []) ∷ (1 ∷ []) ∷ [])))
        ≡ has_key k (lowered packages ((1 ∷ []) ∷ (2 ∷ []) ∷ (1 ∷ []) ∷ [])))
    × DistinctKeys
        (lowered packages (dedupe_strings packages ((1 ∷ []) ∷ (2 ∷ []) ∷ (1 ∷ []) ∷ [])))
dedupe_strings-keys_example = dedupe_strings-keys packages ((1 ∷ []) ∷ (2 ∷ []) ∷ (1 ∷ []) ∷ [])

big_endian : ℕ → List ℕ → ℕ
big_endian n [] = n
big_endian n (b ∷ bs) = big_endian (n * 256 + b) bs

abbrev word_packages : AbiUnpack.Packages
word_packages = record {
  Int = ℕ;
  set_bytes32 = λ w. big_endian 0 w;
  is_uint64 = λ n. ltb n (2 ^ 64);
  uint64 = λ n. n % 2 ^ 64;
  hex_to_hash = λ s. s;
  hex_to_address = λ s. s;
  bytes_to_hash = λ w. w;
  bytes_to_address = λ w. w;
}

abbrev argument : Argument
argument = record {
  name = b'n' ∷ [];
  kind = uint_ty;
  has_elem = false;
  size = 256;
  indexed = false;
}

abbrev transfer : EventDef
transfer = record {
  event_name = b'T' ∷ [];
  topic0 = [];
  abi_event = record { sig = []; inputs = argument ∷ record argument { indexed = true } ∷ [] };
  indexed = record argument { indexed = true } ∷ [];
  addresses = [];
}

abbrev word_nine : List ℕ
word_nine = replicate 31 0 ++ (9 ∷ [])

abbrev rows : List (Row word_packages (λ a. a))
rows = record { arg = argument; encoded = word_nine; value = number 9 } ∷ []

fast_unpack-static_example :
    fast_unpack word_packages
      (λ a. a)
      transfer
      []
      (joined (words word_packages (λ a. a) rows) ++ (5 ∷ []))
    ≡ some (assigned word_packages (λ a. a) rows [], none)
unfolding big_endian
fast_unpack-static_example =
    fast_unpack-static word_packages (λ a. a) transfer rows (5 ∷ []) [] refl
      ((refl, refl, refl), tt)
