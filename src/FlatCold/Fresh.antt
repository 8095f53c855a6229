-- ===== src/FlatCold/Fresh.antt =====
-- A `put` of a new key, into the slot that `allocSlot` gives.
use sqd_go.Base.{
  ℕ, suc, ◌+◌, ◌≤◌, ◌<◌, ◌≡◌, ◌≢◌, ◌⊎◌, refl, sym, ap, ◌∙◌, Bool, true, inl, inr, Bool-cases, leb,
  leb→le, arith, List, none, some, length,
}
use sqd_go.FlatCold.{FlatCold, write, copy, idx_insert, lookup}
use sqd_go.FlatCold.Calls.{fill, alloc_slot, put_ready}
use sqd_go.FlatCold.Counts.{count-one_more}
use sqd_go.FlatCold.Linked.{IsLinked, IsShaped, IsValid, Holds}
use sqd_go.FlatCold.Unlink.{write-ne, write_self}
use sqd_go.FlatCold.Insert.{copy-all, insert-Linked}
use sqd_go.FlatCold.Sweep.{Freed}
use sqd_go.FlatCold.Stored.{Put, stride-write}

module _ (f : FlatCold) (key value : List ℕ) (valid : IsValid f) (len_key : length key ≡ f.key_len)
    (len_value : length value ≡ f.val_len)
    (x : Freed f (leb f.capacity f.size) (suc f.capacity) (alloc_slot f)) where
  -- The store with the slot free, and the arrays with the key and the value in it.
  abbrev freed : FlatCold
  freed = record f {
    buckets = x.buckets';
    next = x.next';
    in_use = x.in_use';
    ref = x.ref';
    hand = x.hand';
    size = x.size';
  }

  abbrev filled : FlatCold
  filled =
      let h : FlatCold = idx_insert (fill freed x.slot key value) key x.slot in
      record h { size = h.size + 1 }

  abbrev used_with : ℕ → Bool
  used_with = write x.in_use' x.slot true

  abbrev keys_with : ℕ → List ℕ
  keys_with = write f.slot_key x.slot (copy (f.slot_key x.slot) key)

  abbrev vals_with : ℕ → List ℕ
  vals_with = write f.slot_val x.slot (copy (f.slot_val x.slot) value)

  own_key : keys_with x.slot ≡ key
  own_key =
      write_self f.slot_key x.slot (copy (f.slot_key x.slot) key)
      ∙ copy-all (f.slot_key x.slot) key (valid.1.key_stride x.slot x.in_range ∙ sym len_key)

  own_val : vals_with x.slot ≡ value
  own_val =
      write_self f.slot_val x.slot (copy (f.slot_val x.slot) value)
      ∙ copy-all (f.slot_val x.slot) value (valid.1.val_stride x.slot x.in_range ∙ sym len_value)

  used_was : (j : ℕ) → j ≢ x.slot → used_with j ≡ f.in_use j
  used_was j ne = write-ne x.in_use' x.slot true j ne ∙ x.others j ne

  key_was : (j : ℕ) → j ≢ x.slot → keys_with j ≡ f.slot_key j
  key_was j ne = write-ne f.slot_key x.slot (copy (f.slot_key x.slot) key) j ne

  val_was : (j : ℕ) → j ≢ x.slot → vals_with j ≡ f.slot_val j
  val_was j ne = write-ne f.slot_val x.slot (copy (f.slot_val x.slot) value) j ne

  -- A value in another slot stays.
  keep :
      (other v : List ℕ) (j : ℕ)
      → j ≢ x.slot
      → j < f.capacity
      → f.in_use j ≡ true
      → f.slot_key j ≡ other
      → f.slot_val j ≡ v
      → Holds filled other v
  unfolding idx_insert fill
  keep other v j ne lj oj kj vj = (j, lj, used_was j ne ∙ oj, key_was j ne ∙ kj, val_was j ne ∙ vj)

  filled-IsShaped : IsShaped filled
  unfolding idx_insert fill
  filled-IsShaped =
      let s = valid.1 in
      record {
        nonempty = s.nonempty;
        reached = s.reached;
        key_positive = s.key_positive;
        bucketed = s.bucketed;
        masked = s.masked;
        counted =
            ap (λ n. n + 1) x.counted
            ∙ sym (
                count-one_more x.in_use' used_with f.capacity x.slot x.in_range x.free
                  (write_self x.in_use' x.slot true) (λ i ne. write-ne x.in_use' x.slot true i ne));
        key_stride = stride-write f.slot_key x.slot f.capacity f.key_len key s.key_stride;
        val_stride = stride-write f.slot_val x.slot f.capacity f.val_len value s.val_stride;
      }

  filled-IsLinked :
      ((i : ℕ) → i < f.capacity → f.in_use i ≡ true → f.slot_key i ≢ key) → IsLinked filled
  unfolding idx_insert fill
  filled-IsLinked absent =
      insert-Linked freed key x.slot x.linked x.free
        (valid.1.key_stride x.slot x.in_range ∙ sym len_key)
        (λ i lt on. absent i lt (sym (x.others i (λ e. cc (ap x.in_use' e, on, x.free))) ∙ on))
        value x.in_range valid.1.reached

  filled-kept :
      ((other v : List ℕ) → other ≢ key → Holds f other v → Holds filled other v)
      ⊎ ((f.capacity ≤ f.size)
          × (lost : List ℕ) × ((other v : List ℕ)
              → other ≢ key
              → other ≢ lost
              → Holds f other v
              → Holds filled other v))
  filled-kept = elim (Bool-cases (f.in_use x.slot)) [
    | inr no_ ↦ inl (λ other v ne (j, lj, oj, kj, vj).
        keep other v j (λ e. cc (ap f.in_use e, oj, no_)) lj oj kj vj)
    | inl yes_ ↦ inr (
      leb→le f.capacity f.size (x.victim yes_),
      f.slot_key x.slot,
      λ other v ne left (j, lj, oj, kj, vj).
          keep other v j (λ e. left (sym kj ∙ ap f.slot_key e)) lj oj kj vj,
    )
  ]

  pub filled-Put :
      lookup f key ≡ some none
      → ((i : ℕ) → i < f.capacity → f.in_use i ≡ true → f.slot_key i ≢ key)
      → Put f key value (put_ready f key value)
  unfolding put_ready idx_insert fill
  filled-Put missed absent = record {
    after = filled;
    returns = rw (missed, x.returns);
    shape = record { capacity = refl; key_len = refl; val_len = refl };
    moved = x.moved;
    grown = omega (arith, x.not_grown);
    valid = (filled-IsLinked absent, filled-IsShaped);
    stored = (x.slot, x.in_range, write_self x.in_use' x.slot true, own_key, own_val);
    nothing_new = λ other v ne (j, lj, oj, kj, vj).
        let away : j ≢ x.slot = λ e. ne (sym kj ∙ ap keys_with e ∙ own_key) in
        (j, lj, sym (used_was j away) ∙ oj, sym (key_was j away) ∙ kj, sym (val_was j away) ∙ vj);
    kept = filled-kept;
  }
