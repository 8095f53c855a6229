-- ===== src/Ring/Push.antt =====
-- `Push` appends to the list that the ring holds, as `appendUnfinalized` does with a limit of 1024.
use sqd_go.Base.{
  ℕ, zero, suc, ◌+◌, ◌-◌, ◌%◌, ◌<◌, ◌≡◌, refl, sym, ap, ◌∙◌, true, false, Option, none, some, List,
  [], ◌∷◌, ◌++◌, inl, inr, arith, get_elem?, last?, set, set_last, drop, length, length-append,
  length-set, length-set_last, length-drop, Bool-cases, ◌==◌, ==_iff, ltb, last?-eq_none,
  get_elem?-set_self, length-replicate,
}
use sqd_go.Chain.{BlockRef}
use sqd_go.Fork.{append_head, append_after, cap_heads, below_finalized}
use sqd_go.Ring.{Ring, next, capacity, no_block, new_ring, push, push_head, push_onto, advance}
use sqd_go.Ring.Window.{
  Window, Represents, next-eq, Window-set_last, Window-append, Window-slide, Window-last,
}

-- The ring that holds nothing, whatever is left in its buffer.
pub Represents-nil :
    (r : Ring) → length r.buffer ≡ 1024 → r.tail < 1024 → r.count ≡ 0 → Represents r []
Represents-nil r size h e = record {
  size = size;
  tail_in = h;
  counted = e;
  bounded = omega arith;
  newest = λ lt. absurd (omega arith);
  window = λ k lt. absurd (omega arith);
}

new_ring-Represents : Represents new_ring []
unfolding new_ring
new_ring-Represents = Represents-nil new_ring (length-replicate 1024 no_block) (omega arith) refl

-- What a call has done: no panic, the list `ys`, and the finalized head as given.
pub record Yields (o : Option Ring) (finalized : Option BlockRef) (ys : List BlockRef)
    : Type 0 where
  pub ring : Ring
  pub returned : o ≡ some ring
  pub holds : Represents ring ys
  pub finalized_is : ring.finalized_head ≡ finalized

module _ (r : Ring) (ref : BlockRef) (xs : List BlockRef) (v : Represents r xs) where
  push_first :
      xs ≡ []
      → Represents
          (record r { head = some 0; tail = 0; buffer = set r.buffer 0 ref; count = 1 })
          (ref ∷ [])
  push_first e = record {
    size = length-set r.buffer 0 ref ∙ v.size;
    tail_in = omega arith;
    counted = refl;
    bounded = omega arith;
    newest = λ lt. refl;
    window = at;
  }
    where
      at : Window (set r.buffer 0 ref) 0 (ref ∷ [])
      at zero lt = get_elem?-set_self r.buffer 0 ref (omega (arith, v.size))
      at (suc k) lt = absurd (omega arith)

  push_over :
      0 < length xs
      → Represents
          (record r { buffer = set r.buffer ((r.tail + (length xs - 1)) % 1024) ref })
          (set_last xs ref)
  push_over some_x = record {
    size = length-set r.buffer _ ref ∙ v.size;
    tail_in = v.tail_in;
    counted = v.counted ∙ sym (length-set_last xs ref);
    bounded = omega (arith, length-set_last xs ref, v.bounded);
    newest = λ lt. rw (length-set_last xs ref) (v.newest some_x);
    window = Window-set_last r.buffer v.size r.tail v.tail_in ref xs some_x v.bounded v.window;
  }

  push_room :
      length xs < 1024
      → Represents
          (record r {
            head = some ((r.tail + length xs) % 1024);
            buffer = set r.buffer ((r.tail + length xs) % 1024) ref;
            count = r.count + 1;
          })
          (xs ++ (ref ∷ []))
  push_room room = record {
    size = length-set r.buffer _ ref ∙ v.size;
    tail_in = v.tail_in;
    counted = omega (arith, length-append xs (ref ∷ []), v.counted);
    bounded = omega (arith, length-append xs (ref ∷ []));
    newest = λ lt. ap some (omega (arith, length-append xs (ref ∷ [])));
    window = Window-append r.buffer v.size r.tail v.tail_in ref xs room v.window;
  }

  push_slide :
      length xs ≡ 1024
      → Represents
          (record r {
            head = some r.tail;
            buffer = set r.buffer r.tail ref;
            tail = (r.tail + 1) % 1024;
          })
          (drop 1 (xs ++ (ref ∷ [])))
  push_slide full = record {
    size = length-set r.buffer _ ref ∙ v.size;
    tail_in = omega arith;
    counted = omega (arith, len, v.counted);
    bounded = omega (arith, len);
    newest = λ lt. ap some (omega (arith, len, v.tail_in));
    window = Window-slide r.buffer v.size r.tail v.tail_in ref xs full v.window;
  }
    where
      len : length (drop 1 (xs ++ (ref ∷ []))) ≡ 1024
      len = omega (arith, length-drop 1 (xs ++ (ref ∷ [])), length-append xs (ref ∷ []))

  advance-Represents :
      0 < length xs
      → Represents
          (advance r ref (next ((r.tail + (length xs - 1)) % 1024)))
          (cap_heads 1024 (xs ++ (ref ∷ [])))
  unfolding advance cap_heads
  advance-Represents some_x =
      let at : next ((r.tail + (length xs - 1)) % 1024) ≡ (r.tail + length xs) % 1024 =
        next-eq _ (omega arith) ∙ omega arith in
      let len : length (xs ++ (ref ∷ [])) ≡ length xs + 1 = length-append xs (ref ∷ []) in
      elim (Bool-cases (ltb r.count 1024)) [
        | inl room ↦
            let fits : ltb 1024 (length (xs ++ (ref ∷ []))) ≡ false = ground (arith, v.counted) in
            rw (room, fits, at) (push_room (ground (arith, v.counted)))
        | inr full ↦
            let over : ltb 1024 (length (xs ++ (ref ∷ []))) ≡ true = ground (arith, v.counted) in
            let is_full : length xs ≡ 1024 = ground (arith, v.counted, v.bounded) in
            let place : (r.tail + length xs) % 1024 ≡ r.tail = omega (arith, v.tail_in) in
            let one : length (xs ++ (ref ∷ [])) - 1024 ≡ 1 = omega arith in
            rw (full, over, at, place, one, next-eq r.tail v.tail_in) (push_slide is_full)
      ]

  finalized-advance : (at : ℕ) → (advance r ref at).finalized_head ≡ r.finalized_head
  unfolding advance
  finalized-advance at = ground arith

  push_onto-Yields :
      (h : ℕ) (last : BlockRef)
      → h ≡ (r.tail + (length xs - 1)) % 1024
      → 0 < length xs
      → Yields
          (push_onto r ref h (some last))
          r.finalized_head
          (append_after 1024 xs (some last) ref)
  unfolding push_onto append_after
  push_onto-Yields h last at some_x = elim (Bool-cases (ltb ref.number last.number)) [
    | inl older ↦ rw older (record { ring = r; returned = refl; holds = v; finalized_is = refl })
    | inr newer ↦ elim (Bool-cases (ref.number == last.number)) [
      | inl same ↦
          let flip : (last.number == ref.number) ≡ true = ground arith in
          rw (newer, same, flip, at)
            (record { ring = _; returned = refl; holds = push_over some_x; finalized_is = refl })
      | inr other ↦
          let flip : (last.number == ref.number) ≡ false = ground arith in
          rw (newer, other, flip, at)
            (record {
              ring = _;
              returned = refl;
              holds = advance-Represents some_x;
              finalized_is = finalized-advance _;
            })
    ]
  ]

  push_new :
      below_finalized r.finalized_head ref ≡ false
      → (o : Option BlockRef) → last? xs ≡ o
      → Yields (push r ref) r.finalized_head (append_after 1024 xs o ref)
  unfolding push append_after
  push_new new none e =
      let empty : xs ≡ [] = last?-eq_none xs e in
      let zero_count : (r.count == 0) ≡ true = (==_iff r.count 0).1 (v.counted ∙ ap length empty) in
      rw (new, zero_count, empty)
        (record { ring = _; returned = refl; holds = push_first empty; finalized_is = refl })
  push_new new (some last) e =
      let some_x : 0 < length xs = positive xs e in
      let more : (r.count == 0) ≡ false = ground (arith, v.counted) in
      let at : get_elem? r.buffer ((r.tail + (length xs - 1)) % 1024) ≡ some last =
        Window-last r.buffer r.tail xs some_x v.window ∙ e in
      rw (new, more, v.newest some_x, push_head, at) (push_onto-Yields _ last refl some_x)
    where
      positive : (ys : List BlockRef) → last? ys ≡ some last → 0 < length ys
      positive [] p = cc
      positive (y ∷ ys) p = omega arith

  push_old : below_finalized r.finalized_head ref ≡ true → Yields (push r ref) r.finalized_head xs
  unfolding push
  push_old old = rw old (record { ring = r; returned = refl; holds = v; finalized_is = refl })

-- Pushing a block on a ring that holds the heads `xs` does not panic, keeps the finalized head, and
-- leaves the list that `appendUnfinalized` would leave with a limit of 1024 heads: the block is
-- dropped, replaces the newest one, or is appended, and then the oldest one goes if the ring was
-- full.
pub push_refines :
    (r : Ring) (ref : BlockRef) (xs : List BlockRef)
    → Represents r xs
    → Yields (push r ref) r.finalized_head (append_head capacity r.finalized_head xs ref)
unfolding append_head
push_refines r ref xs v = elim (Bool-cases (below_finalized r.finalized_head ref)) [
  | inl old ↦ rw (old, append_head) (push_old r ref xs v old)
  | inr new ↦ rw (new, append_head) (push_new r ref xs v new (last? xs) refl)
]
