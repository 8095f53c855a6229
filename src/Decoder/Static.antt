-- ===== src/Decoder/Static.antt =====
-- Event data of static arguments, one word each, decodes to their values.
use sqd_go.Base.{
  ℕ, suc, ◌*◌, ◌≡◌, refl, sym, ap, ◌∙◌, Bool, true, false, Option, none, some, List, [], ◌∷◌, ◌++◌,
  ◌⊎◌, inr, leb, if◌then◌else◌, ◌>>=◌, length, length-append, append_assoc, take, drop, map, arith,
}
use sqd_go.AbiUnpack.{Packages, word, bool_word}
use sqd_go.AbiUnpack.Arrays.{joined, word-front}
use sqd_go.Decoder.{
  Text, Kind, uint_ty, int_ty, address_ty, bool_ty, string_ty, bytes_ty, fixed_bytes_ty, hash_ty,
  slice_ty, array_ty, other_ty, Argument, EventDef,
}
use sqd_go.Decoder.Unpacking.{
  UnpackError, Value, number, truth, text_value, bytes_value, hash, of_bool, unpack_arg, Values,
  assign, unpack_loop, non_indexed, fast_unpack,
}

module _ (p : Packages) (address_hex : List ℕ → Text) where
  -- The value of a word for a static type.
  abbrev pub static_value : Kind → ℕ → List ℕ → Option (Value p.Int)
  static_value uint_ty size w = some (number (p.set_bytes32 w))
  static_value int_ty size w = some (number (p.set_bytes32 w))
  static_value address_ty size w = some (text_value (address_hex (p.bytes_to_address (drop 12 w))))
  static_value bool_ty size w = do b ← bool_word p w; some (truth b)
  static_value fixed_bytes_ty size w =
      if leb size (length w) then some (bytes_value (take size w)) else none
  static_value hash_ty size w = some (hash (p.bytes_to_hash w))
  static_value _ size w = none

  -- An argument, its word and its value.
  pub record Row : Type 0 where
    pub arg : Argument
    pub encoded : List ℕ
    pub value : Value p.Int

  abbrev pub IsStatic : Row → Type 0
  IsStatic r =
      (r.arg.has_elem ≡ false)
      × (length r.encoded ≡ 32)
      × (static_value r.arg.kind r.arg.size r.encoded ≡ some r.value)

  abbrev pub AreStatic : List Row → Type 0
  AreStatic [] = Unit {0}
  AreStatic (r ∷ rs) = IsStatic r × AreStatic rs

  abbrev pub row_args : List Row → List Argument
  row_args rs = map (λ (r : Row). r.arg) rs

  abbrev pub words : List Row → List (List ℕ)
  words rs = map (λ (r : Row). r.encoded) rs

  abbrev pub assigned : List Row → Values p address_hex → Values p address_hex
  assigned [] result = result
  assigned (r ∷ rs) result = assigned rs (assign p address_hex r.arg.name r.value result)

  of_bool-static :
      (o : Option Bool) (v : Value p.Int)
      → (do b ← o; some (truth b)) ≡ some v
      → of_bool p address_hex o ≡ some (inr v)
  of_bool-static none v e = cc
  of_bool-static (some b) v e = cc

  fixed-static :
      (b : Bool) (x v : Value p.Int)
      → (if b then some x else none) ≡ some v
      → ◌≡◌ {A = Option (UnpackError ⊎ Value p.Int)}
          (if b then some (inr x) else none)
          (some (inr v))
  fixed-static true x v e = cc
  fixed-static false x v e = cc

  of_word-static :
      (k : Kind) (size : ℕ) (w : List ℕ) (v : Value p.Int) (input : List ℕ) (head : ℕ)
      → static_value k size w ≡ some v
      → word input head ≡ some w
      → unpack_arg p address_hex k false size input head ≡ some (inr v)
  of_word-static uint_ty size w v input head e h = rw h cc
  of_word-static int_ty size w v input head e h = rw h cc
  of_word-static address_ty size w v input head e h = rw h cc
  of_word-static bool_ty size w v input head e h = rw h (of_bool-static (bool_word p w) v e)
  of_word-static fixed_bytes_ty size w v input head e h =
      rw h (fixed-static (leb size (length w)) (bytes_value (take size w)) v e)
  of_word-static hash_ty size w v input head e h = rw h cc
  of_word-static string_ty size w v input head e h = cc
  of_word-static bytes_ty size w v input head e h = cc
  of_word-static slice_ty size w v input head e h = cc
  of_word-static array_ty size w v input head e h = cc
  of_word-static other_ty size w v input head e h = cc

  -- The loop reads the words of the rows, one after the other.
  unpack_loop-static :
      (rs : List Row) (pre rest : List ℕ) (head : ℕ) (result : Values p address_hex)
      → AreStatic rs
      → length pre ≡ head * 32
      → unpack_loop p address_hex head (row_args rs) (pre ++ (joined (words rs) ++ rest)) result
        ≡ some (assigned rs result, none)
  unfolding joined
  unpack_loop-static [] pre rest head result st at = refl
  unpack_loop-static (r ∷ rs) pre rest head result ((plain, width, val), st) at =
      let w = r.encoded in
      let input : List ℕ = pre ++ ((w ++ joined (words rs)) ++ rest) in
      let front : input ≡ pre ++ (w ++ (joined (words rs) ++ rest)) =
        ap (λ z. pre ++ z) (append_assoc w (joined (words rs)) rest) in
      let next : input ≡ (pre ++ w) ++ (joined (words rs) ++ rest) =
        front ∙ sym (append_assoc pre w (joined (words rs) ++ rest)) in
      let here : word input head ≡ some w =
        ap (λ z. word z head) front ∙ word-front pre w (joined (words rs) ++ rest) head at width in
      let got : unpack_arg p address_hex r.arg.kind r.arg.has_elem r.arg.size input head
          ≡ some (inr r.value) =
        ap (λ b. unpack_arg p address_hex r.arg.kind b r.arg.size input head) plain
        ∙ of_word-static r.arg.kind r.arg.size w r.value input head val here in
      rw (unpack_loop, got)
        (ap
            (λ z.
              unpack_loop p address_hex (suc head) (row_args rs) z
                (assign p address_hex r.arg.name r.value result))
            next
          ∙ unpack_loop-static rs (pre ++ w) rest (suc head)
              (assign p address_hex r.arg.name r.value result) st
              (omega (arith, length-append pre w, at, width)))

  -- Where the arguments that are not indexed are static, `fastUnpack` decodes data that begins with
  -- their words, whatever comes after: it puts the value of each word under the argument's name, in
  -- order, without an error.
  pub fast_unpack-static :
      (e : EventDef) (rs : List Row) (rest : List ℕ) (result : Values p address_hex)
      → non_indexed p address_hex e.abi_event.inputs ≡ row_args rs
      → AreStatic rs
      → fast_unpack p address_hex e result (joined (words rs) ++ rest)
        ≡ some (assigned rs result, none)
  unfolding fast_unpack
  fast_unpack-static e rs rest result args st =
      ap (λ xs. unpack_loop p address_hex 0 xs (joined (words rs) ++ rest) result) args
      ∙ unpack_loop-static rs [] rest 0 result st refl
