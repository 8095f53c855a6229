-- ===== src/Decoder/Building.antt =====
-- `BuildEventDecoder`: the decoders by topic and the filters of a configuration.
use sqd_go.Base.{Option, none, some, List, [], ◌∷◌, ◌++◌, ◌⊎◌, inl, inr, if◌then◌else◌, bytes_equal}
use sqd_go.Decoder.{
  Text, Argument, Event, Packages, EventDef, LogFilter, ContractConfig, event_name_from_sig,
  event_to_abi_json, lowered, merge_addresses, dedupe_strings, dedupe_filters,
}

pub data BuildError : Type 0 where
  parse_event : Text → BuildError
  event_not_found : Text → BuildError
  no_log_filters : BuildError

abbrev pub Decoders : Type 0
Decoders = List (Text × EventDef)

abbrev pub find_decoder : Text → Decoders → Option EventDef
find_decoder t [] = none
find_decoder t ((u, e) ∷ ds) = if bytes_equal u t then some e else find_decoder t ds

abbrev indexed_of : List Argument → List Argument
indexed_of [] = []
indexed_of (a ∷ args) = let rest = indexed_of args in if a.indexed then a ∷ rest else rest

module _ (p : Packages) where
  -- The event of a signature, by its name in the parsed JSON.
  unfoldable pub find_event : Text → BuildError ⊎ Event
  unfolding event_name_from_sig event_to_abi_json
  find_event sig =
      let name = event_name_from_sig sig in
      elim (p.abi_json (event_to_abi_json p name sig)) [
        | none ↦ inl (parse_event sig)
        | some events ↦ elim (events name) [ none ↦ inl (event_not_found name) | some ev ↦ inr ev ]
      ]

  abbrev pub topic_of : Event → Text
  topic_of ev = p.keccak256 ev.sig

  -- An entry of the map: its addresses are merged in place where it is there, and it is made where it
  -- is not.
  abbrev pub enter : Decoders → Text → Text → Event → List Text → Decoders
  enter [] t name ev addresses =
      (
        t,
        record {
          event_name = name;
          topic0 = t;
          abi_event = ev;
          indexed = indexed_of ev.inputs;
          addresses = lowered p addresses;
        },
      )
      ∷ []
  enter ((u, e) ∷ ds) t name ev addresses =
      if bytes_equal u t
      then (u, merge_addresses p e addresses) ∷ ds
      else (u, e) ∷ enter ds t name ev addresses

  -- The loop over the events of a contract, with the topics so far.
  abbrev pub events_loop :
      Decoders → List Text → List Text → List Text → BuildError ⊎ (Decoders × List Text)
  events_loop ds topics addresses [] = inr (ds, topics)
  events_loop ds topics addresses (sig ∷ sigs) = elim (find_event sig) [
    | inl err ↦ inl err
    | inr ev ↦
        let t = topic_of ev in
        events_loop (enter ds t (event_name_from_sig sig) ev addresses)
          (topics ++ (p.hash_hex t ∷ [])) addresses sigs
  ]

  -- A contract without events has no filter.
  abbrev pub add_filter : List Text → List Text → List LogFilter → List LogFilter
  add_filter addresses [] filters = filters
  add_filter addresses (t ∷ ts) filters =
      filters
      ++ (record { address = dedupe_strings p addresses; topic0 = dedupe_strings p (t ∷ ts) } ∷ [])

  abbrev pub contracts_loop :
      Decoders → List LogFilter → List ContractConfig → BuildError ⊎ (Decoders × List LogFilter)
  contracts_loop ds filters [] = inr (ds, filters)
  contracts_loop ds filters (c ∷ cs) =
      let addresses = lowered p c.address in
      elim (events_loop ds [] addresses c.events) [
        | inl err ↦ inl err
        | inr (ds', topics) ↦ contracts_loop ds' (add_filter addresses topics filters) cs
      ]

  abbrev pub checked : Decoders × List LogFilter → BuildError ⊎ (Decoders × List LogFilter)
  checked (ds, []) = inl no_log_filters
  checked (ds, f ∷ fs) = inr (ds, dedupe_filters p (f ∷ fs))

  unfoldable pub build_event_decoder :
      List ContractConfig → BuildError ⊎ (Decoders × List LogFilter)
  build_event_decoder contracts = elim (contracts_loop [] [] contracts) [
    | inl err ↦ inl err
    | inr built ↦ checked built
  ]
