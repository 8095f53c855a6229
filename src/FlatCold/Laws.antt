-- ===== src/FlatCold/Laws.antt =====
-- `get`, `getInto` and `del` against what the store holds.
use sqd_go.Base.{
  ℕ, ◌<◌, ◌≤◌, ◌-◌, ◌≡◌, ◌≢◌, ◌↔◌, refl, sym, ap, ◌∙◌, Bool, true, false, inl, inr, arith, List,
  Option, none, some, length, replicate, length-replicate, ◌>>=◌,
}
use sqd_go.FlatCold.{lookup, FlatCold, write, copy}
use sqd_go.FlatCold.Calls.{get, get_into, del}
use sqd_go.FlatCold.Counts.{count-one_more}
use sqd_go.FlatCold.Linked.{IsValid, Holds, SameShape}
use sqd_go.FlatCold.Find.{lookup-IsValid}
use sqd_go.FlatCold.Unlink.{write-ne, write_self}
use sqd_go.FlatCold.Delink.{idx_unlink-Linked}
use sqd_go.FlatCold.Insert.{copy-all}

-- A store holds one value for a key.
pub Holds-one :
    (f : FlatCold) (key v w : List ℕ) → IsValid f → Holds f key v → Holds f key w → v ≡ w
Holds-one f key v w (k, s) (i, li, oi, ki, vi) (j, lj, oj, kj, vj) =
    sym vi ∙ ap f.slot_val (k.unique i j li lj oi oj (ki ∙ sym kj)) ∙ vj

-- `get` answers with exactly the value that the store holds for the key, with no value where it holds
-- none, and leaves what the store holds.
pub record Got (f : FlatCold) (key : List ℕ) (result : Option (Option (List ℕ) × FlatCold))
    : Type 0 where
  pub answer : Option (List ℕ)
  pub after : FlatCold
  pub returns : result ≡ some (answer, after)
  pub valid : IsValid after
  pub shape : SameShape f after
  pub unmoved : after.hand ≡ f.hand
  pub not_grown : after.size ≤ f.size
  pub exact : (v : List ℕ) → (answer ≡ some v) ↔ Holds f key v
  pub kept : (other v : List ℕ) → Holds after other v ↔ Holds f other v

-- `del` reports whether the store held the key. Afterwards the store holds what it held for the other
-- keys, and nothing for the key.
pub record Deleted (f : FlatCold) (key : List ℕ) (result : Option (Bool × FlatCold)) : Type 0 where
  pub found : Bool
  pub after : FlatCold
  pub returns : result ≡ some (found, after)
  pub valid : IsValid after
  pub shape : SameShape f after
  pub unmoved : after.hand ≡ f.hand
  pub not_grown : after.size ≤ f.size
  pub exact : (found ≡ true) ↔ ((v : List ℕ) × Holds f key v)
  pub kept : (other v : List ℕ) → Holds after other v ↔ ((other ≢ key) × Holds f other v)

-- On a valid store `get` ends and leaves it valid. It answers with exactly the value that the store
-- holds for the key, with no value where it holds none, and leaves what the store holds.
pub get-Got : (f : FlatCold) (key : List ℕ) → IsValid f → Got f key (get f key)
unfolding get
get-Got f key (k, s) = elim (lookup-IsValid f key (k, s)) [
  | inl (i, found, lt, on, at) ↦
      let whole : copy (replicate f.val_len 0) (f.slot_val i) ≡ f.slot_val i =
        copy-all (replicate f.val_len 0) (f.slot_val i)
          (length-replicate f.val_len 0 ∙ sym (s.val_stride i lt)) in
      record {
        answer = some (copy (replicate f.val_len 0) (f.slot_val i));
        after = record f { ref = write f.ref i true };
        returns = rw found;
        valid = (k, s);
        shape = record { capacity = refl; key_len = refl; val_len = refl };
        unmoved = refl;
        not_grown = omega arith;
        exact = λ v. (
          λ e. (i, lt, on, at, cc (whole, e)),
          λ h. ap some (whole ∙ Holds-one f key (f.slot_val i) v (k, s) (i, lt, on, at, refl) h),
        );
        kept = λ other v. (λ h. h, λ h. h);
      }
  | inr (missed, absent) ↦ record {
    answer = none;
    after = f;
    returns = rw missed;
    valid = (k, s);
    shape = record { capacity = refl; key_len = refl; val_len = refl };
    unmoved = refl;
    not_grown = omega arith;
    exact = λ v. (λ e. cc, λ (i, lt, on, at, e). absurd (absent i lt on at));
    kept = λ other v. (λ h. h, λ h. h);
  }
]

-- The key is there.
Deleted-held :
    (f : FlatCold) (key : List ℕ) (i : ℕ)
    → IsValid f
    → lookup f key ≡ some (some i)
    → i < f.capacity
    → f.in_use i ≡ true
    → f.slot_key i ≡ key
    → Deleted f key (del f key)
unfolding del
Deleted-held f key i (k, s) found lt on at =
    let (bs, nx, done_, linked) = idx_unlink-Linked f key i k lt on at in
    let iu : ℕ → Bool = write f.in_use i false in
    let on_ne : (j : ℕ) → iu j ≡ true → j ≢ i =
      λ j h e. cc (ap iu e, h, write_self f.in_use i false) in
    record {
      found = true;
      after = record f {
        buckets = bs;
        next = nx;
        in_use = iu;
        ref = write f.ref i false;
        size = f.size - 1;
      };
      returns = rw (found, done_);
      shape = record { capacity = refl; key_len = refl; val_len = refl };
      unmoved = refl;
      not_grown = omega arith;
      valid = (
        linked,
        record {
          nonempty = s.nonempty;
          reached = s.reached;
          key_positive = s.key_positive;
          bucketed = s.bucketed;
          masked = s.masked;
          counted = omega (
            arith,
            s.counted,
            count-one_more iu f.in_use f.capacity i lt (write_self f.in_use i false) on
                (λ j ne. sym (write-ne f.in_use i false j ne)),
          );
          key_stride = s.key_stride;
          val_stride = s.val_stride;
        },
      );
      exact = (λ h. (f.slot_val i, (i, lt, on, at, refl)), λ h. refl);
      kept = λ other v. (
        λ (j, lj, oj, kj, vj).
            let ne : j ≢ i = on_ne j oj in
            let was : f.in_use j ≡ true = sym (write-ne f.in_use i false j ne) ∙ oj in
            (λ e. ne (k.unique j i lj lt was on (kj ∙ e ∙ sym at)), (j, lj, was, kj, vj)),
        λ (ne, (j, lj, oj, kj, vj)). (
          j,
          lj,
          write-ne f.in_use i false j (λ e. ne (sym kj ∙ ap f.slot_key e ∙ at)) ∙ oj,
          kj,
          vj,
        ),
      );
    }

-- The key is not there.
Deleted-absent :
    (f : FlatCold) (key : List ℕ)
    → IsValid f
    → lookup f key ≡ some none
    → ((i : ℕ) → i < f.capacity → f.in_use i ≡ true → f.slot_key i ≢ key)
    → Deleted f key (del f key)
unfolding del
Deleted-absent f key (k, s) missed absent = record {
  found = false;
  after = f;
  returns = rw missed;
  valid = (k, s);
  shape = record { capacity = refl; key_len = refl; val_len = refl };
  unmoved = refl;
  not_grown = omega arith;
  exact = (λ h. cc, λ (v, (i, lt, on, at, e)). absurd (absent i lt on at));
  kept = λ other v.
      (λ (j, lj, oj, kj, vj). (λ e. absent j lj oj (kj ∙ e), (j, lj, oj, kj, vj)), λ (ne, h). h);
}

-- On a valid store `del` ends and leaves it valid. It reports whether the store held the key, and
-- afterwards the store holds what it held for the other keys, and nothing for the key.
pub del-Deleted : (f : FlatCold) (key : List ℕ) → IsValid f → Deleted f key (del f key)
del-Deleted f key v = elim (lookup-IsValid f key v) [
  | inl (i, found, lt, on, at) ↦ Deleted-held f key i v found lt on at
  | inr (missed, absent) ↦ Deleted-absent f key v missed absent
]

-- `getInto` with a destination of the value stride answers as `get`, and leaves the destination on a
-- miss.
get_into-get :
    (f : FlatCold) (dst key : List ℕ)
    → IsValid f
    → length dst ≡ f.val_len
    → get_into f dst key ≡ (do
      (answer, g) ← get f key
      some (elim answer [ none ↦ (false, dst, g) | some v ↦ (true, v, g) ]))
unfolding get_into get
get_into-get f dst key (k, s) len_dst = elim (lookup-IsValid f key (k, s)) [
  | inl (i, found, lt, on, at) ↦
      let whole =
        copy-all (replicate f.val_len 0) (f.slot_val i)
          (length-replicate f.val_len 0 ∙ sym (s.val_stride i lt)) in
      rw (found, whole, copy-all dst (f.slot_val i) (len_dst ∙ sym (s.val_stride i lt)))
  | inr (missed, absent) ↦ rw missed
]
