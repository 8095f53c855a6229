-- ===== src/FlatCold/Tests.antt =====
-- The theorems on the store at small stores.
use sqd_go.Base.{
  ℕ, ◌<◌, ◌≡◌, refl, sym, ◌∙◌, Bool, true, false, ◌==◌, ==_iff, if◌then◌else◌, none, some, List, [],
  ◌∷◌, leb, arith, pos,
}
use sqd_go.FlatCold.{FlatCold, bucket_of, new_flatcold}
use sqd_go.FlatCold.Calls.{alloc_slot, put, del}
use sqd_go.FlatCold.Links.{has, Distinct, Leads}
use sqd_go.FlatCold.Linked.{IsValid, bucket_of-le}
use sqd_go.FlatCold.Sweep.{Freed}
use sqd_go.FlatCold.Allocate.{alloc_slot-Freed}
use sqd_go.FlatCold.Stored.{Put}
use sqd_go.FlatCold.Put.{put-Put}
use sqd_go.FlatCold.Laws.{Deleted, del-Deleted}
use sqd_go.FlatCold.Exact.{new_flatcold-remembered}
use sqd_go.FlatCold.Trace.{Call, putting, getting, deleting, run, Ran, remembered, new_flatcold-Ran}

-- A full store of one slot.
abbrev full_store : FlatCold
full_store = record {
  budget_bytes = pos 0;
  capacity = 1;
  key_len = 1;
  val_len = 1;
  slot_key = λ i. 5 ∷ [];
  slot_val = λ i. 6 ∷ [];
  in_use = λ i. true;
  ref = λ i. true;
  bucket_count = 1;
  buckets = λ b. if b == 0 then some 0 else none;
  next = λ i. none;
  bucket_mask = 0;
  hand = 3;
  size = 1;
}

abbrev one_list : Bool → List ℕ
one_list b = if b then 0 ∷ [] else []

one-Leads : (b : Bool) → Leads (λ i. none) (if b then some 0 else none) (one_list b)
one-Leads true = (refl, refl)
one-Leads false = refl

one-Distinct : (b : Bool) → Distinct (one_list b)
one-Distinct true = (refl, tt)
one-Distinct false = tt

has-one : (b : Bool) (i : ℕ) → has i (one_list b) ≡ true → (i ≡ 0) × (b ≡ true)
has-one true i h = (ground arith, refl)
has-one false i h = cc

one-has : (b : Bool) (i : ℕ) → b ≡ true → i < 1 → has i (one_list b) ≡ true
one-has true i e lt = ground arith
one-has false i e lt = cc

bucket_zero : bucket_of (5 ∷ []) 0 ≡ 0
bucket_zero = omega (arith, bucket_of-le (5 ∷ []) 0)

full_store-IsValid : IsValid full_store
full_store-IsValid = (
  record {
    lists = λ b. one_list (b == 0);
    leads = λ b. one-Leads (b == 0);
    below = λ b i h. omega (arith, (has-one (b == 0) i h).0);
    used = λ b i h. refl;
    hashed = λ b i h. bucket_zero ∙ sym ((==_iff b 0).0 (has-one (b == 0) i h).1);
    complete = λ i lt on.
        one-has (bucket_of (5 ∷ []) 0 == 0) i ((==_iff (bucket_of (5 ∷ []) 0) 0).1 bucket_zero) lt;
    distinct = λ b. one-Distinct (b == 0);
    unique = λ i j li lj oi oj e. omega arith;
  },
  record {
    nonempty = omega arith;
    reached = omega arith;
    key_positive = omega arith;
    bucketed = omega arith;
    masked = omega arith;
    counted = refl;
    key_stride = λ i lt. refl;
    val_stride = λ i lt. refl;
  },
)

alloc_slot-Freed_example :
    Freed full_store (leb full_store.capacity full_store.size) 2 (alloc_slot full_store)
alloc_slot-Freed_example = alloc_slot-Freed full_store full_store-IsValid (omega arith)

put-Put_example : Put full_store (7 ∷ []) (8 ∷ []) (put full_store (7 ∷ []) (8 ∷ []))
put-Put_example = put-Put full_store (7 ∷ []) (8 ∷ []) full_store-IsValid refl refl (omega arith)

del-Deleted_example : Deleted full_store (5 ∷ []) (del full_store (5 ∷ []))
del-Deleted_example = del-Deleted full_store (5 ∷ []) full_store-IsValid

abbrev calls : List Call
calls =
    putting (2 ∷ []) (8 ∷ [])
    ∷ putting (3 ∷ []) (9 ∷ [])
    ∷ deleting (2 ∷ [])
    ∷ getting (3 ∷ [])
    ∷ []

new_flatcold-Ran_example :
    Ran
      (putting (1 ∷ []) (7 ∷ []) ∷ calls)
      (λ key. none)
      (run (putting (1 ∷ []) (7 ∷ []) ∷ calls) (new_flatcold 2))
new_flatcold-Ran_example =
    new_flatcold-Ran 2 (1 ∷ []) (7 ∷ []) calls (omega arith) (omega arith)
      (refl, refl, (refl, refl, tt)) (omega arith)

new_flatcold-remembered_example :
    (f' : FlatCold) × (run (putting (1 ∷ []) (7 ∷ []) ∷ calls) (new_flatcold 4)
      ≡ some (remembered (putting (1 ∷ []) (7 ∷ []) ∷ calls) (λ key. none), f'))
new_flatcold-remembered_example =
    new_flatcold-remembered 4 (1 ∷ []) (7 ∷ []) calls (omega arith) (omega arith)
      (refl, refl, (refl, refl, tt)) (omega arith) (omega arith)
