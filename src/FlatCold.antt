-- ===== src/FlatCold.antt =====
-- coldcache/flatcold.go: the flat cold store, fixed-stride slots with a bucket index and CLOCK
-- eviction. An array is a function of the index; the index into the buckets is masked to their number,
-- `hand % capacity` is below the capacity, and a link that leaves the slots is a panic. Row `i` of
-- `slot_key` and `slot_val` is the i-th stride of the flat buffer. The mutex makes each operation one
-- step. `none` is a panic or a loop that has run out of fuel.
pub mod Calls
pub mod Counts
pub mod Links
pub mod Linked
pub mod Find
pub mod Unlink
pub mod Delink
pub mod Sweep
pub mod Allocate
pub mod Start
pub mod Insert
pub mod Stored
pub mod Fresh
pub mod Put
pub mod Laws
pub mod Trace
pub mod Exact
mod Tests
use sqd_go.Base.{
  ℕ, zero, suc, ◌+◌, ◌-◌, ◌*◌, ◌/◌, ◌%◌, ◌^◌, Bool, true, false, not, ◌&&◌, Option, none, some,
  List, [], ◌∷◌, ltb, leb, ◌==◌, if◌then◌else◌, bit_and, bit_xor, bytes_equal, length, replicate,
  ◌>>=◌, ℤ, pos, negsuc,
}
use sqd_go.ColdFilter.{absorb_key, fnv_offset, fnv_prime, word}

-- A link is a slot, or `none` for a negative number, the end of a chain. There are `bucket_count`
-- buckets, none before `init`.
pub record FlatCold : Type 0 where
  pub budget_bytes : ℤ
  pub capacity : ℕ
  pub key_len : ℕ
  pub val_len : ℕ
  pub slot_key : ℕ → List ℕ
  pub slot_val : ℕ → List ℕ
  pub in_use : ℕ → Bool
  pub ref : ℕ → Bool
  pub bucket_count : ℕ
  pub buckets : ℕ → Option ℕ
  pub next : ℕ → Option ℕ
  pub bucket_mask : ℕ
  pub hand : ℕ
  pub size : ℕ

-- `a[i] = v`
abbrev pub write {ℓ} : {A : Type ℓ} → (ℕ → A) → ℕ → A → ℕ → A
write a i v j = if j == i then v else a j

-- `copy`, which stops at the end of the shorter slice.
pub copy : List ℕ → List ℕ → List ℕ
copy [] src = []
copy (d ∷ dst) [] = d ∷ dst
copy (d ∷ dst) (b ∷ src) = b ∷ copy dst src

unallocated : ℤ → ℕ → FlatCold
unallocated budget_bytes capacity = record {
  budget_bytes = budget_bytes;
  capacity = capacity;
  key_len = 0;
  val_len = 0;
  slot_key = λ i. [];
  slot_val = λ i. [];
  in_use = λ i. false;
  ref = λ i. false;
  bucket_count = 0;
  buckets = λ i. none;
  next = λ i. none;
  bucket_mask = 0;
  hand = 0;
  size = 0;
}

pub new_flatcold : ℕ → FlatCold
unfolding unallocated
new_flatcold capacity = unallocated (pos 0) (if capacity == 0 then 1 else capacity)

new_flatcold_budget : ℤ → FlatCold
unfolding unallocated
new_flatcold_budget budget_bytes = unallocated budget_bytes 0

abbrev flatcold_min_capacity : ℕ
flatcold_min_capacity = 65536

-- The capacity that a budget gives.
budget_slots : ℤ → ℕ → ℕ
budget_slots (pos b) slot = b / slot
budget_slots (negsuc b) slot = 0

pub init_capacity : FlatCold → ℕ → ℕ → ℕ
unfolding budget_slots
init_capacity f key_len val_len =
    let c = budget_slots f.budget_bytes (key_len + val_len + 2) in
    if f.capacity == 0
    then (if ltb c flatcold_min_capacity then flatcold_min_capacity else c)
    else f.capacity

-- The loop that doubles `bc` below the capacity, on fuel.
pub bucket_loop : ℕ → ℕ → ℕ → Option ℕ
bucket_loop zero bc capacity = none
bucket_loop (suc fuel) bc capacity =
    let rest = bucket_loop fuel (word (bc * 2)) capacity in
    if ltb bc capacity then rest else some bc

-- 64 doublings pass every capacity that an int32 link can reach. `next` is allocated zeroed.
pub init : FlatCold → ℕ → ℕ → Option FlatCold
unfolding bucket_loop init_capacity
init f key_len val_len =
    let capacity = init_capacity f key_len val_len in
    do
      bc ← bucket_loop 64 1 capacity
      some (record f {
        capacity = capacity;
        key_len = key_len;
        val_len = val_len;
        slot_key = λ i. replicate key_len 0;
        slot_val = λ i. replicate val_len 0;
        in_use = λ i. false;
        ref = λ i. false;
        next = λ i. some 0;
        bucket_count = bc;
        buckets = λ i. none;
        bucket_mask = bc - 1;
      })

pub fnv1a : List ℕ → ℕ
fnv1a key =
    let h₀ = absorb_key fnv_offset key in
    let h₁ = word (bit_xor h₀ (h₀ / 2 ^ 32) * fnv_prime) in bit_xor h₁ (h₁ / 2 ^ 29)

-- `fnv1a(key) & f.bucketMask`
pub bucket_of : List ℕ → ℕ → ℕ
unfolding fnv1a
bucket_of key bucket_mask = bit_and (fnv1a key) bucket_mask

-- The walk of `lookup` along a chain, on fuel.
pub find_loop : ℕ → FlatCold → List ℕ → Option ℕ → Option (Option ℕ)
unfolding bytes_equal
find_loop fuel f key none = some none
find_loop zero f key (some i) = none
find_loop (suc fuel) f key (some i) =
    let rest = find_loop fuel f key (f.next i) in
    if not (ltb i f.capacity)
    then none
    else if f.in_use i && bytes_equal (f.slot_key i) key
    then some (some i)
    else rest

-- `none` inside is the -1 of a key that is not found.
pub lookup : FlatCold → List ℕ → Option (Option ℕ)
unfolding find_loop
lookup f key =
    if f.bucket_count == 0
    then some none
    else find_loop f.capacity f key (f.buckets (bucket_of key f.bucket_mask))

-- `int32(slot)`
abbrev pub int32 : ℕ → Option ℕ
int32 slot = let s = slot % 2 ^ 32 in if ltb s (2 ^ 31) then some s else none

pub idx_insert : FlatCold → List ℕ → ℕ → FlatCold
idx_insert f key slot =
    let b = bucket_of key f.bucket_mask in
    record f { next = write f.next slot (f.buckets b); buckets = write f.buckets b (int32 slot) }

-- `prev` before the first step is -1, here `none`.
pub unlink_loop : ℕ → FlatCold → ℕ → ℕ → Option ℕ → Option ℕ → Option FlatCold
unlink_loop fuel f b slot prev none = some f
unlink_loop zero f b slot prev (some i) = none
unlink_loop (suc fuel) f b slot prev (some i) =
    let rest = unlink_loop fuel f b slot (some i) (f.next i) in
    if not (ltb i f.capacity)
    then none
    else if i == slot
    then some (elim prev [
      | none ↦ record f { buckets = write f.buckets b (f.next i); next = write f.next i none }
      | some q ↦ record f { next = write (write f.next q (f.next i)) i none }
    ])
    else rest

pub idx_unlink : FlatCold → List ℕ → ℕ → Option FlatCold
unfolding unlink_loop
idx_unlink f key slot =
    let b = bucket_of key f.bucket_mask in unlink_loop f.capacity f b slot none (f.buckets b)
