-- ===== src/Decoder/Unpacking.antt =====
-- `fastUnpack` and `decodeIndexedTopic`, with the decoders of AbiUnpack. The outer `none` is a panic, on
-- a fixed size above the 32 bytes of a word.
use sqd_go.Base.{
  ℕ, suc, Bool, true, false, Option, none, some, List, [], ◌∷◌, ◌⊎◌, inl, inr, leb, if◌then◌else◌,
  bytes_equal, length, take, drop,
}
use sqd_go.AbiUnpack.{
  Packages, word, bytes, bool_word, uint256_array, address_array, hash_array, bool_array,
  decode_topic_address, topic_bool, decode_topic_hash, decode_topic_uint256,
}
use sqd_go.Decoder.{
  Text, Kind, uint_ty, int_ty, address_ty, bool_ty, string_ty, bytes_ty, fixed_bytes_ty, hash_ty,
  slice_ty, array_ty, other_ty, Argument, EventDef,
}

pub data UnpackError : Type 0 where
  out_of_bounds : UnpackError
  invalid : Kind → UnpackError
  unsupported : Kind → UnpackError

-- The values that the code puts into the map.
pub data Value (N : Type 0) : Type 0 where
  number : N → Value N
  numbers : List N → Value N
  address : List ℕ → Value N
  addresses : List (List ℕ) → Value N
  truth : Bool → Value N
  truths : List Bool → Value N
  text_value : Text → Value N
  bytes_value : List ℕ → Value N
  hash : List ℕ → Value N
  hashes : List (List ℕ) → Value N

module _ (p : Packages) (address_hex : List ℕ → Text) where
  abbrev Answer : Type 0
  Answer = Option (UnpackError ⊎ Value p.Int)

  -- What is made of an array, or the error.
  abbrev pub of_array : {A : Type 0} → UnpackError → (A → Value p.Int) → Option (Option A) → Answer
  of_array err f none = none
  of_array err f (some none) = some (inl err)
  of_array err f (some (some x)) = some (inr (f x))

  -- What is made of the head word, or the error.
  abbrev pub of_word : (List ℕ → Answer) → Option (List ℕ) → Answer
  of_word f none = some (inl out_of_bounds)
  of_word f (some w) = f w

  abbrev pub of_bool : Option Bool → Answer
  of_bool none = some (inl (invalid bool_ty))
  of_bool (some b) = some (inr (truth b))

  -- `word[:size]`, copied.
  abbrev pub fixed : ℕ → List ℕ → Answer
  fixed size w = if leb size (length w) then some (inr (bytes_value (take size w))) else none

  abbrev pub unpack_number : Kind → Bool → List ℕ → ℕ → Answer
  unpack_number k true input head = of_array (invalid k) numbers (uint256_array p input head)
  unpack_number k false input head =
      of_word (λ w. some (inr (number (p.set_bytes32 w)))) (word input head)

  abbrev pub unpack_address : Bool → List ℕ → ℕ → Answer
  unpack_address true input head =
      of_array (invalid address_ty) addresses (address_array p input head)
  unpack_address false input head =
      of_word (λ w. some (inr (text_value (address_hex (p.bytes_to_address (drop 12 w))))))
        (word input head)

  abbrev pub unpack_bool : Bool → List ℕ → ℕ → Answer
  unpack_bool true input head = of_array (invalid bool_ty) truths (bool_array p input head)
  unpack_bool false input head = of_word (λ w. of_bool (bool_word p w)) (word input head)

  abbrev pub unpack_fixed : Bool → ℕ → List ℕ → ℕ → Answer
  unpack_fixed true size input head =
      of_array (invalid fixed_bytes_ty) hashes (hash_array p input head)
  unpack_fixed false size input head = of_word (fixed size) (word input head)

  abbrev pub unpack_hash : Bool → List ℕ → ℕ → Answer
  unpack_hash true input head = of_array (invalid hash_ty) hashes (hash_array p input head)
  unpack_hash false input head =
      of_word (λ w. some (inr (hash (p.bytes_to_hash w)))) (word input head)

  -- One argument, from its head word.
  abbrev pub unpack_arg : Kind → Bool → ℕ → List ℕ → ℕ → Answer
  unpack_arg uint_ty elem_ size input head = unpack_number uint_ty elem_ input head
  unpack_arg int_ty elem_ size input head = unpack_number int_ty elem_ input head
  unpack_arg address_ty elem_ size input head = unpack_address elem_ input head
  unpack_arg bool_ty elem_ size input head = unpack_bool elem_ input head
  unpack_arg string_ty elem_ size input head =
      of_array out_of_bounds text_value (bytes p input head)
  unpack_arg bytes_ty elem_ size input head =
      of_array out_of_bounds bytes_value (bytes p input head)
  unpack_arg fixed_bytes_ty elem_ size input head = unpack_fixed elem_ size input head
  unpack_arg hash_ty elem_ size input head = unpack_hash elem_ input head
  unpack_arg slice_ty elem_ size input head = some (inl (unsupported slice_ty))
  unpack_arg array_ty elem_ size input head = some (inl (unsupported array_ty))
  unpack_arg other_ty elem_ size input head = some (inl (unsupported other_ty))

  abbrev pub Values : Type 0
  Values = List (Text × Value p.Int)

  -- `result[name] = v`
  abbrev pub assign : Text → Value p.Int → Values → Values
  assign name v [] = (name, v) ∷ []
  assign name v ((n, w) ∷ vs) =
      if bytes_equal n name then (n, v) ∷ vs else (n, w) ∷ assign name v vs

  abbrev pub non_indexed : List Argument → List Argument
  non_indexed [] = []
  non_indexed (a ∷ args) = let rest = non_indexed args in if a.indexed then rest else a ∷ rest

  -- The loop over the arguments: an error ends it and leaves what it has put.
  abbrev pub unpack_loop :
      ℕ → List Argument → List ℕ → Values → Option (Values × Option UnpackError)
  unpack_loop head [] input result = some (result, none)
  unpack_loop head (a ∷ args) input result = elim (unpack_arg a.kind a.has_elem a.size input head) [
    | none ↦ none
    | some (inl err) ↦ some (result, some err)
    | some (inr v) ↦ unpack_loop (suc head) args input (assign a.name v result)
  ]

  unfoldable pub fast_unpack : EventDef → Values → List ℕ → Option (Values × Option UnpackError)
  fast_unpack e result input = unpack_loop 0 (non_indexed e.abi_event.inputs) input result

  unfoldable pub decode_indexed_topic : Text → Kind → Value p.Int
  decode_indexed_topic topic address_ty = address (decode_topic_address p topic)
  decode_indexed_topic topic bool_ty = truth (topic_bool p topic)
  decode_indexed_topic topic uint_ty = number (decode_topic_uint256 p topic)
  decode_indexed_topic topic int_ty = number (decode_topic_uint256 p topic)
  decode_indexed_topic topic _ = hash (decode_topic_hash p topic)
