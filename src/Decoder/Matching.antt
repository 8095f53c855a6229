-- ===== src/Decoder/Matching.antt =====
-- Which logs the decoders of a configuration take: those of its contracts and events.
use sqd_go.Base.{
  ◌≡◌, refl, sym, ap, ◌∙◌, Bool, true, false, ◌&&◌, ◌||◌, Option, none, some, List, [], ◌∷◌, ◌++◌,
  ◌⊎◌, inl, inr, if◌then◌else◌, bytes_equal, bytes_equal_iff, Bool-cases, arith,
}
use sqd_go.Decoder.{
  Text, Event, Packages, EventDef, LogFilter, ContractConfig, has_key, lowered, accepts, merged,
  matches_address, merge_addresses, event_name_from_sig,
}
use sqd_go.Decoder.Building.{
  BuildError, Decoders, find_decoder, find_event, topic_of, enter, events_loop, contracts_loop,
  build_event_decoder, add_filter, checked,
}

has_key-append :
    (k : Text) (xs ys : List Text) → has_key k (xs ++ ys) ≡ (has_key k xs || has_key k ys)
unfolding has_key
has_key-append k [] ys = refl
has_key-append k (x ∷ xs) ys = ground (arith, has_key-append k xs ys)

-- A merged set admits what either set admits.
accepts-merged :
    (p : Packages) (xs addresses : List Text) (a : Text)
    → accepts p (merged p xs addresses) a ≡ (accepts p xs a || accepts p (lowered p addresses) a)
accepts-merged p [] addresses a = refl
accepts-merged p (x ∷ xs) [] a = ground arith
accepts-merged p (x ∷ xs) (y ∷ ys) a = has_key-append (p.to_lower a) (x ∷ xs) (lowered p (y ∷ ys))

abbrev right_of : {A B C : Type 0} → B → A ⊎ (B × C) → B
right_of d (inl x) = d
right_of d (inr (y, z)) = y

or_false : (b : Bool) → (b || false) ≡ b
or_false b = ground arith

or_assoc : (b c d : Bool) → ((b || c) || d) ≡ (b || (c || d))
or_assoc b c d = ground arith

apart :
    (b c x y z : Bool)
    → (b ≡ true → c ≡ true → ⊥)
    → (if b then x else (y || (c && z))) ≡ ((if b then x else y) || (c && z))
apart true true x y z h = absurd (h refl refl)
apart true false x y z h = ground arith
apart false c x y z h = refl

module _ (p : Packages) where
  -- A log with this topic and address is decoded.
  abbrev pub taken : Option EventDef → Text → Bool
  taken o a = elim o [ none ↦ false | some e ↦ matches_address p e a ]

  abbrev pub takes : Decoders → Text → Text → Bool
  takes ds t a = taken (find_decoder t ds) a

  abbrev pub event_lists_as : List Text → Text → Text → BuildError ⊎ Event → Bool
  event_lists_as addresses t a o = elim o [
    | inl err ↦ false
    | inr ev ↦ bytes_equal (topic_of p ev) t && accepts p (lowered p addresses) a
  ]

  -- A contract with these addresses lists an event of this topic, and admits the address.
  abbrev pub event_lists : List Text → Text → Text → Text → Bool
  event_lists addresses t a sig = event_lists_as addresses t a (find_event p sig)

  abbrev pub any_event : List Text → Text → Text → List Text → Bool
  any_event addresses t a [] = false
  any_event addresses t a (sig ∷ sigs) =
      event_lists addresses t a sig || any_event addresses t a sigs

  abbrev pub configured : List ContractConfig → Text → Text → Bool
  configured [] t a = false
  configured (c ∷ cs) t a = any_event (lowered p c.address) t a c.events || configured cs t a

  taken-if :
      (b : Bool) (e : EventDef) (r : Option EventDef) (a : Text)
      → taken (if b then some e else r) a ≡ (if b then matches_address p e a else taken r a)
  taken-if true e r a = refl
  taken-if false e r a = refl

  takes-first :
      (u : Text) (e : EventDef) (ds : Decoders) (t a : Text)
      → takes ((u, e) ∷ ds) t a ≡ (if bytes_equal u t then matches_address p e a else takes ds t a)
  takes-first u e ds t a = taken-if (bytes_equal u t) e (find_decoder t ds) a

  if_or : (b x y z : Bool) → (if b then x || y else z) ≡ ((if b then x else z) || (b && y))
  if_or true x y z = refl
  if_or false x y z = ground arith

  -- An entry admits what its decoder takes, beside what was taken before.
  takes-enter :
      (ds : Decoders) (u name : Text) (ev : Event) (addresses : List Text) (t a : Text)
      → takes (enter p ds u name ev addresses) t a
        ≡ (takes ds t a || (bytes_equal u t && accepts p (lowered p addresses) a))
  unfolding matches_address merge_addresses
  takes-enter [] u name ev addresses t a =
      takes-first u _ [] t a
      ∙ if_or (bytes_equal u t) false (accepts p (lowered p addresses) a) false
      ∙ ground arith
  takes-enter ((v, e) ∷ ds) u name ev addresses t a = elim (Bool-cases (bytes_equal v u)) [
    | inl same ↦
        let e' : EventDef = merge_addresses p e addresses in
        let x : Bool = accepts p (lowered p addresses) a in
        ap
          (λ (b : Bool).
            takes (if b then (v, e') ∷ ds else (v, e) ∷ enter p ds u name ev addresses) t a)
          same
        ∙ takes-first v e' ds t a
        ∙ ap (λ (b : Bool). if bytes_equal v t then b else takes ds t a)
            (accepts-merged p e.addresses addresses a)
        ∙ if_or (bytes_equal v t) (matches_address p e a) x (takes ds t a)
        ∙ ap (λ (b : Bool). b || (bytes_equal v t && x)) (sym (takes-first v e ds t a))
        ∙ ap (λ w. takes ((v, e) ∷ ds) t a || (bytes_equal w t && x)) ((bytes_equal_iff v u).0 same)
    | inr other ↦
        let e' : EventDef = merge_addresses p e addresses in
        let x : Bool = accepts p (lowered p addresses) a in
        ap
          (λ (b : Bool).
            takes (if b then (v, e') ∷ ds else (v, e) ∷ enter p ds u name ev addresses) t a)
          other
        ∙ takes-first v e (enter p ds u name ev addresses) t a
        ∙ ap (λ (b : Bool). if bytes_equal v t then matches_address p e a else b)
            (takes-enter ds u name ev addresses t a)
        ∙ apart (bytes_equal v t) (bytes_equal u t) (matches_address p e a) (takes ds t a) x (λ h k.
          cc (
            (bytes_equal_iff v u).1 ((bytes_equal_iff v t).0 h ∙ sym ((bytes_equal_iff u t).0 k)),
            other,
          ))
        ∙ ap (λ (b : Bool). b || (bytes_equal u t && x)) (sym (takes-first v e ds t a))
  ]

  -- The decoders after the events of a contract.
  takes-events :
      (ds : Decoders) (topics addresses sigs : List Text) (ds' : Decoders) (topics' : List Text)
      → events_loop p ds topics addresses sigs ≡ inr (ds', topics')
      → (t a : Text) → takes ds' t a ≡ (takes ds t a || any_event addresses t a sigs)
  takes-events ds topics addresses [] ds' topics' e t a =
      ap (λ d. takes d t a) (sym (ap (right_of ds) e)) ∙ sym (or_false (takes ds t a))
  takes-events ds topics addresses (sig ∷ sigs) ds' topics' e t a =
      step (find_event p sig)
        (λ ev f.
          takes-events (enter p ds (topic_of p ev) (event_name_from_sig sig) ev addresses)
            (topics ++ (p.hash_hex (topic_of p ev) ∷ [])) addresses sigs ds' topics' f t a)
        e
    where
      name : Text
      name = event_name_from_sig sig

      after : Event → BuildError ⊎ (Decoders × List Text)
      after ev =
          events_loop p (enter p ds (topic_of p ev) name ev addresses)
            (topics ++ (p.hash_hex (topic_of p ev) ∷ [])) addresses sigs

      step :
          (o : BuildError ⊎ Event)
          → ((ev : Event)
              → after ev ≡ inr (ds', topics')
              → takes ds' t a ≡ (
                  takes (enter p ds (topic_of p ev) name ev addresses) t a
                  || any_event addresses t a sigs))
          → (elim o [ inl err ↦ inl err | inr ev ↦ after ev ]) ≡ inr (ds', topics')
          → takes ds' t a
            ≡ (takes ds t a || (event_lists_as addresses t a o || any_event addresses t a sigs))
      step (inl err) ih e = cc
      step (inr ev) ih e =
          ih ev e
          ∙ ap (λ (b : Bool). b || any_event addresses t a sigs)
              (takes-enter ds (topic_of p ev) name ev addresses t a)
          ∙ or_assoc (takes ds t a) (event_lists_as addresses t a (inr ev))
              (any_event addresses t a sigs)

  takes-contracts :
      (ds : Decoders) (filters : List LogFilter) (cs : List ContractConfig) (ds' : Decoders)
      (filters' : List LogFilter)
      → contracts_loop p ds filters cs ≡ inr (ds', filters')
      → (t a : Text) → takes ds' t a ≡ (takes ds t a || configured cs t a)
  takes-contracts ds filters [] ds' filters' e t a =
      ap (λ d. takes d t a) (sym (ap (right_of ds) e)) ∙ sym (or_false (takes ds t a))
  takes-contracts ds filters (c ∷ cs) ds' filters' e t a =
      step (events_loop p ds [] (lowered p c.address) c.events) refl
        (λ d topics f.
          takes-contracts d (add_filter p (lowered p c.address) topics filters) cs ds' filters' f t
            a)
        e
    where
      after : Decoders → List Text → BuildError ⊎ (Decoders × List LogFilter)
      after d topics = contracts_loop p d (add_filter p (lowered p c.address) topics filters) cs

      step :
          (o : BuildError ⊎ (Decoders × List Text))
          → events_loop p ds [] (lowered p c.address) c.events ≡ o
          → ((d : Decoders) (topics : List Text)
              → after d topics ≡ inr (ds', filters')
              → takes ds' t a ≡ (takes d t a || configured cs t a))
          → (elim o [ inl err ↦ inl err | inr (d, topics) ↦ after d topics ]) ≡ inr (ds', filters')
          → takes ds' t a
            ≡ (takes ds t a || (any_event (lowered p c.address) t a c.events || configured cs t a))
      step (inl err) h ih e = cc
      step (inr (d, topics)) h ih e =
          ih d topics e
          ∙ ap (λ (b : Bool). b || configured cs t a)
              (takes-events ds [] (lowered p c.address) c.events d topics h t a)
          ∙ or_assoc (takes ds t a) (any_event (lowered p c.address) t a c.events)
              (configured cs t a)

  -- Where `BuildEventDecoder` succeeds, a log with topic `t` and address `a` is decoded exactly where some
  -- contract of the configuration lists an event of that topic, and its addresses are empty or have
  -- the address, up to letter case as `to_lower` has it.
  pub build_event_decoder-takes :
      (contracts : List ContractConfig) (ds : Decoders) (filters : List LogFilter)
      → build_event_decoder p contracts ≡ inr (ds, filters)
      → (t a : Text) → takes ds t a ≡ configured contracts t a
  unfolding build_event_decoder
  build_event_decoder-takes contracts ds filters e t a =
      step (contracts_loop p [] [] contracts) refl e
    where
      step :
          (o : BuildError ⊎ (Decoders × List LogFilter))
          → contracts_loop p [] [] contracts ≡ o
          → (elim o [ inl err ↦ inl err | inr built ↦ checked p built ]) ≡ inr (ds, filters)
          → takes ds t a ≡ configured contracts t a
      step (inl err) h e = cc
      step (inr (d, [])) h e = cc
      step (inr (d, f ∷ fs)) h e =
          ap (λ x. takes x t a) (sym (ap (right_of d) e))
          ∙ takes-contracts [] [] contracts d (f ∷ fs) h t a
