-- ===== src/FlatCold/Put.antt =====
-- What `put` stores, what it keeps and what it may evict.
use sqd_go.Base.{
  ℕ, ◌+◌, ◌^◌, ◌<◌, ◌≡◌, ◌≢◌, refl, sym, ap, ◌∙◌, subst, true, false, inl, inr, ◌==◌, arith, List,
  some, length,
}
use sqd_go.FlatCold.{FlatCold, write, copy, lookup}
use sqd_go.FlatCold.Calls.{put_ready, put}
use sqd_go.FlatCold.Linked.{IsValid}
use sqd_go.FlatCold.Find.{lookup-IsValid}
use sqd_go.FlatCold.Unlink.{write-ne, write_self}
use sqd_go.FlatCold.Insert.{copy-all}
use sqd_go.FlatCold.Allocate.{alloc_slot-Freed}
use sqd_go.FlatCold.Stored.{Put, stride-write}
use sqd_go.FlatCold.Fresh.{filled-Put}

-- The key is there: its value is overwritten.
Put-over :
    (f : FlatCold) (key value : List ℕ) (i : ℕ)
    → IsValid f
    → length value ≡ f.val_len
    → lookup f key ≡ some (some i)
    → i < f.capacity
    → f.in_use i ≡ true
    → f.slot_key i ≡ key
    → Put f key value (put_ready f key value)
unfolding put_ready
Put-over f key value i (k, s) len_value found lt on at =
    let vs : ℕ → List ℕ = write f.slot_val i (copy (f.slot_val i) value) in
    let old : (j : ℕ) (other : List ℕ) → other ≢ key → f.slot_key j ≡ other → vs j ≡ f.slot_val j =
      λ j other ne e.
        write-ne f.slot_val i (copy (f.slot_val i) value) j
          (λ ji. ne (sym e ∙ ap f.slot_key ji ∙ at)) in
    record {
      after = record f { slot_val = vs; ref = write f.ref i true };
      returns = rw found;
      shape = record { capacity = refl; key_len = refl; val_len = refl };
      moved = omega arith;
      grown = omega arith;
      valid = (
        k,
        record {
          nonempty = s.nonempty;
          reached = s.reached;
          key_positive = s.key_positive;
          bucketed = s.bucketed;
          masked = s.masked;
          counted = s.counted;
          key_stride = s.key_stride;
          val_stride = stride-write f.slot_val i f.capacity f.val_len value s.val_stride;
        },
      );
      stored = (
        i,
        lt,
        on,
        at,
        write_self f.slot_val i (copy (f.slot_val i) value)
            ∙ copy-all (f.slot_val i) value (s.val_stride i lt ∙ sym len_value),
      );
      nothing_new = λ other v ne (j, lj, oj, kj, vj). (j, lj, oj, kj, sym (old j other ne kj) ∙ vj);
      kept = inl (λ other v ne (j, lj, oj, kj, vj). (j, lj, oj, kj, old j other ne kj ∙ vj));
    }

-- On a valid store with strides for the key and the value, `put` ends.
put_ready-Put :
    (f : FlatCold) (key value : List ℕ)
    → IsValid f
    → length key ≡ f.key_len
    → length value ≡ f.val_len
    → f.hand + f.capacity < 2 ^ 64
    → Put f key value (put_ready f key value)
put_ready-Put f key value v len_key len_value small = elim (lookup-IsValid f key v) [
  | inl (i, found, lt, on, at) ↦ Put-over f key value i v len_value found lt on at
  | inr (missed, absent) ↦
      filled-Put f key value v len_key len_value (alloc_slot-Freed f v small) missed absent
]

-- On a valid store, with a key and a value of its strides and a hand that does not wrap around within
-- a round: `put` ends in a valid store, which holds the value for the key. For the other keys it holds
-- nothing new, and what the store held, all of it, or all but one key where the store was full.
pub put-Put :
    (f : FlatCold) (key value : List ℕ)
    → IsValid f
    → length key ≡ f.key_len
    → length value ≡ f.val_len
    → f.hand + f.capacity < 2 ^ 64
    → Put f key value (put f key value)
unfolding put
put-Put f key value (k, s) len_key len_value small =
    let made : (f.key_len == 0) ≡ false = ground (arith, s.key_positive) in
    subst (Put f key value) (rw made) (put_ready-Put f key value (k, s) len_key len_value small)
