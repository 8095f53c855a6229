-- ===== src/FlatCold/Linked.antt =====
-- The invariant of the store.
use sqd_go.Base.{ℕ, ◌^◌, bit_and-le, ◌≤◌, ◌<◌, ◌≡◌, Bool, true, List, Option, length}
use sqd_go.FlatCold.{FlatCold, bucket_of, fnv1a}
use sqd_go.FlatCold.Counts.{count}
use sqd_go.FlatCold.Links.{has, Distinct, Leads}

-- The chain of bucket `b` leads through the slots `lists b`: the slots in use whose key hashes to `b`,
-- each once. No two slots in use have one key.
pub record Linked (capacity mask : ℕ) (buckets next : ℕ → Option ℕ) (in_use : ℕ → Bool)
    (slot_key : ℕ → List ℕ) : Type 0 where
  pub lists : ℕ → List ℕ
  pub leads : (b : ℕ) → Leads next (buckets b) (lists b)
  pub below : (b i : ℕ) → has i (lists b) ≡ true → i < capacity
  pub used : (b i : ℕ) → has i (lists b) ≡ true → in_use i ≡ true
  pub hashed : (b i : ℕ) → has i (lists b) ≡ true → bucket_of (slot_key i) mask ≡ b
  pub complete :
      (i : ℕ) → i < capacity → in_use i ≡ true → has i (lists (bucket_of (slot_key i) mask)) ≡ true
  pub distinct : (b : ℕ) → Distinct (lists b)
  pub unique :
      (i j : ℕ)
      → i < capacity
      → j < capacity
      → in_use i ≡ true
      → in_use j ≡ true
      → slot_key i ≡ slot_key j
      → i ≡ j

-- The strides, the size and the capacity, which an int32 link reaches.
pub record Shaped (capacity key_len val_len bucket_count bucket_mask size : ℕ)
    (slot_key slot_val : ℕ → List ℕ) (in_use : ℕ → Bool) : Type 0 where
  pub nonempty : 0 < capacity
  pub reached : capacity ≤ 2 ^ 31
  pub key_positive : 0 < key_len
  pub bucketed : 0 < bucket_count
  pub masked : bucket_mask < bucket_count
  pub counted : size ≡ count in_use capacity
  pub key_stride : (i : ℕ) → i < capacity → length (slot_key i) ≡ key_len
  pub val_stride : (i : ℕ) → i < capacity → length (slot_val i) ≡ val_len

abbrev pub IsLinked : FlatCold → Type 0
IsLinked f = Linked f.capacity f.bucket_mask f.buckets f.next f.in_use f.slot_key

abbrev pub IsShaped : FlatCold → Type 0
IsShaped f =
    Shaped f.capacity f.key_len f.val_len f.bucket_count f.bucket_mask f.size f.slot_key f.slot_val
      f.in_use

abbrev pub IsValid : FlatCold → Type 0
IsValid f = IsLinked f × IsShaped f

-- What the store promises: the values it holds for a key.
abbrev pub Holds : FlatCold → List ℕ → List ℕ → Type 0
Holds f key v =
    (i : ℕ) × (i < f.capacity) × (f.in_use i ≡ true) × (f.slot_key i ≡ key) × (f.slot_val i ≡ v)

-- The index into the buckets is in range.
pub bucket_of-le : (key : List ℕ) (mask : ℕ) → bucket_of key mask ≤ mask
unfolding bucket_of
bucket_of-le key mask = bit_and-le (fnv1a key) mask

-- What an operation leaves as it is.
pub record SameShape (f f' : FlatCold) : Type 0 where
  pub capacity : f'.capacity ≡ f.capacity
  pub key_len : f'.key_len ≡ f.key_len
  pub val_len : f'.val_len ≡ f.val_len
