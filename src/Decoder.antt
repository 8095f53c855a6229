-- ===== src/Decoder.antt =====
-- internal/parser/abi.go: the event decoders, their address filters and the fast decoder of event data,
-- with `LogFilter` of internal/client/client.go and the configuration of internal/config/config.go.
-- Texts are lists of bytes. A Go map is a list of pairs or, for a set, of keys.
pub mod Building
pub mod Matching
pub mod Filters
pub mod Unpacking
pub mod Static
mod Tests
use sqd_go.Base.{
  ℕ, zero, suc, ◌+◌, Bool, true, false, not, ◌||◌, Option, none, some, List, [], ◌∷◌, ◌++◌, map,
  ◌⊎◌, inl, inr, ◌==◌, if◌then◌else◌, ◌>>=◌, bytes_equal,
}

abbrev pub Text : Type 0
Text = List ℕ

-- `abi.Type.T`, the kinds that the code names; `other_ty` is any other.
pub data Kind : Type 0 where
  uint_ty : Kind
  int_ty : Kind
  address_ty : Kind
  bool_ty : Kind
  string_ty : Kind
  bytes_ty : Kind
  fixed_bytes_ty : Kind
  hash_ty : Kind
  slice_ty : Kind
  array_ty : Kind
  other_ty : Kind

-- `abi.Argument`; `has_elem` says that `Type.Elem` is not nil.
pub record Argument : Type 0 where
  pub name : Text
  pub kind : Kind
  pub has_elem : Bool
  pub size : ℕ
  pub indexed : Bool

-- `abi.Event`
pub record Event : Type 0 where
  pub sig : Text
  pub inputs : List Argument

-- What the code calls of go-ethereum and of Go's library: `abi.JSON` with the events of what it
-- parses, `Keccak256Hash`, `Hash.Hex`, `strings.ToLower`, `TrimSpace` and `Fields`, and the printing
-- of a decimal number.
pub record Packages : Type 0 where
  pub abi_json : Text → Option (Text → Option Event)
  pub keccak256 : Text → Text
  pub hash_hex : Text → Text
  pub to_lower : Text → Text
  pub trim_space : Text → Text
  pub fields : Text → List Text
  pub itoa : ℕ → Text

-- The field `abi` is read in the fallback of `Decode` alone.
pub record EventDef : Type 0 where
  pub event_name : Text
  pub topic0 : Text
  pub abi_event : Event
  pub indexed : List Argument
  pub addresses : List Text

-- The fields of the filter that the code sets.
pub record LogFilter : Type 0 where
  pub address : List Text
  pub topic0 : List Text

-- The signatures of the events stand for their configurations.
pub record ContractConfig : Type 0 where
  pub address : List Text
  pub events : List Text

-- A key in a set.
pub has_key : Text → List Text → Bool
has_key k [] = false
has_key k (x ∷ xs) = bytes_equal x k || has_key k xs

-- The text before the first `c`, and the text after it.
cut_at : ℕ → Text → Option (Text × Text)
cut_at c [] = none
cut_at c (x ∷ xs) =
    let rest = cut_at c xs in
    if x == c then some ([], xs) else (do (before, after) ← rest; some (x ∷ before, after))

pub event_name_from_sig : Text → Text
unfolding cut_at
event_name_from_sig sig = elim (cut_at b'(' sig) [ none ↦ sig | some (name, _) ↦ name ]

onto_head : ℕ → List Text → List Text
onto_head x [] = (x ∷ []) ∷ []
onto_head x (p ∷ ps) = (x ∷ p) ∷ ps

-- `strings.Split` at commas.
split_commas : Text → List Text
unfolding onto_head
split_commas [] = [] ∷ []
split_commas (x ∷ xs) =
    let rest = split_commas xs in if x == b',' then [] ∷ rest else onto_head x rest

-- A closing parenthesis at the end goes.
drop_close : Text → Text
drop_close [] = []
drop_close (x ∷ []) = if x == b')' then [] else x ∷ []
drop_close (x ∷ y ∷ ys) = x ∷ drop_close (y ∷ ys)

-- `strings.Join` with commas.
join_commas : List Text → Text
join_commas [] = []
join_commas (p ∷ []) = p
join_commas (p ∷ q ∷ ps) = p ++ (b',' ∷ join_commas (q ∷ ps))

normalize_solidity_type : Text → Text
normalize_solidity_type typ =
    let uint : Text = b'u' ∷ b'i' ∷ b'n' ∷ b't' ∷ [] in
    let int : Text = b'i' ∷ b'n' ∷ b't' ∷ [] in
    let bits : Text = b'2' ∷ b'5' ∷ b'6' ∷ [] in
    if bytes_equal typ uint then uint ++ bits else if bytes_equal typ int then int ++ bits else typ

-- The loop over the words after the type: whether `indexed` is among them, and the last other one.
words_loop : List Text → Bool → Text → Bool × Text
words_loop [] indexed name = (indexed, name)
words_loop (p ∷ ps) indexed name =
    let marks = bytes_equal p (b'i' ∷ b'n' ∷ b'd' ∷ b'e' ∷ b'x' ∷ b'e' ∷ b'd' ∷ []) in
    words_loop ps (if marks then true else indexed) (if marks then name else p)

input_json : Bool → Text → Text → Text
input_json indexed name typ =
    let flag : Text =
      if indexed then b't' ∷ b'r' ∷ b'u' ∷ b'e' ∷ [] else b'f' ∷ b'a' ∷ b'l' ∷ b's' ∷ b'e' ∷ [] in
    b'{'
    ∷ b'"'
    ∷ b'i'
    ∷ b'n'
    ∷ b'd'
    ∷ b'e'
    ∷ b'x'
    ∷ b'e'
    ∷ b'd'
    ∷ b'"'
    ∷ b':'
    ∷ (flag
        ++ (b','
            ∷ b'"'
            ∷ b'n'
            ∷ b'a'
            ∷ b'm'
            ∷ b'e'
            ∷ b'"'
            ∷ b':'
            ∷ b'"'
            ∷ (name
                ++ (b'"'
                    ∷ b','
                    ∷ b'"'
                    ∷ b't'
                    ∷ b'y'
                    ∷ b'p'
                    ∷ b'e'
                    ∷ b'"'
                    ∷ b':'
                    ∷ b'"'
                    ∷ (typ ++ (b'"' ∷ b'}' ∷ []))))))

event_json : Text → Text → Text
event_json inputs name =
    b'['
    ∷ b'{'
    ∷ b'"'
    ∷ b'a'
    ∷ b'n'
    ∷ b'o'
    ∷ b'n'
    ∷ b'y'
    ∷ b'm'
    ∷ b'o'
    ∷ b'u'
    ∷ b's'
    ∷ b'"'
    ∷ b':'
    ∷ b'f'
    ∷ b'a'
    ∷ b'l'
    ∷ b's'
    ∷ b'e'
    ∷ b','
    ∷ b'"'
    ∷ b'i'
    ∷ b'n'
    ∷ b'p'
    ∷ b'u'
    ∷ b't'
    ∷ b's'
    ∷ b'"'
    ∷ b':'
    ∷ b'['
    ∷ (inputs
        ++ (b']'
            ∷ b','
            ∷ b'"'
            ∷ b'n'
            ∷ b'a'
            ∷ b'm'
            ∷ b'e'
            ∷ b'"'
            ∷ b':'
            ∷ b'"'
            ∷ (name
                ++ (b'"' ∷ b',' ∷ b'"' ∷ b't' ∷ b'y' ∷ b'p' ∷ b'e' ∷ b'"' ∷ b':' ∷ b'"' ∷ b'e'
                    ∷ b'v' ∷ b'e' ∷ b'n' ∷ b't' ∷ b'"' ∷ b'}' ∷ b']' ∷ []))))

module _ (p : Packages) where
  -- One argument of a signature, at its position; an empty one is passed over.
  arg_json : ℕ → List Text → List Text
  unfolding words_loop input_json normalize_solidity_type
  arg_json i [] = []
  arg_json i (typ ∷ rest) =
      let (indexed, name) = words_loop rest false (b'p' ∷ p.itoa i) in
      input_json indexed name (normalize_solidity_type typ) ∷ []

  args_json : ℕ → List Text → List Text
  unfolding arg_json
  args_json i [] = []
  args_json i (arg ∷ args) = arg_json i (p.fields (p.trim_space arg)) ++ args_json (suc i) args

  pub event_to_abi_json : Text → Text → Text
  unfolding cut_at drop_close split_commas args_json join_commas event_json
  event_to_abi_json name sig = elim (cut_at b'(' sig) [
    | none ↦ []
    | some (_, rest) ↦
        let args = drop_close rest in
        let inputs : List Text = elim (p.trim_space args) [
          | [] ↦ []
          | _ ∷ _ ↦ args_json 0 (split_commas args)
        ] in
        event_json (join_commas inputs) name
  ]

  abbrev pub lowered : List Text → List Text
  lowered values = map p.to_lower values

  -- An empty set admits every address.
  abbrev pub accepts : List Text → Text → Bool
  accepts [] address = true
  accepts (x ∷ xs) address = has_key (p.to_lower address) (x ∷ xs)

  pub matches_address : EventDef → Text → Bool
  matches_address e address = accepts e.addresses address

  -- Two sets as one, where an empty one admits every address.
  abbrev pub merged : List Text → List Text → List Text
  merged [] as_ = []
  merged (x ∷ xs) [] = []
  merged (x ∷ xs) (a ∷ as_) = (x ∷ xs) ++ lowered (a ∷ as_)

  pub merge_addresses : EventDef → List Text → EventDef
  merge_addresses e addresses = record e { addresses = merged e.addresses addresses }

  -- The loop of `dedupeStrings`, with the keys that it has seen.
  pub dedupe_loop : List Text → List Text → List Text
  dedupe_loop seen [] = []
  dedupe_loop seen (v ∷ vs) = elim (has_key (p.to_lower v) seen) [
    | true ↦ dedupe_loop seen vs
    | false ↦ v ∷ dedupe_loop (p.to_lower v ∷ seen) vs
  ]

  pub dedupe_strings : List Text → List Text
  unfolding dedupe_loop
  dedupe_strings values = dedupe_loop [] values

  abbrev filter_key : LogFilter → Text
  filter_key f = join_commas (lowered f.address) ++ (b'|' ∷ join_commas (lowered f.topic0))

  filters_loop : List Text → List LogFilter → List LogFilter
  filters_loop seen [] = []
  filters_loop seen (f ∷ fs) = elim (has_key (filter_key f) seen) [
    | true ↦ filters_loop seen fs
    | false ↦ f ∷ filters_loop (filter_key f ∷ seen) fs
  ]

  pub dedupe_filters : List LogFilter → List LogFilter
  unfolding filters_loop
  dedupe_filters filters = filters_loop [] filters
