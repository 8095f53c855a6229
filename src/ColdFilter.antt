-- ===== src/ColdFilter.antt =====
-- coldcache/filter.go and coldcache/filter_split.go: the Bloom filters in front of the cold store. A
-- block is the function that says of a word and a bit in it whether the bit is set; the indices into
-- a block are masked to its size. An atomic operation is one step. `none` is a panic, on a block out of
-- range.
pub mod Marks
pub mod Members
mod Tests
use sqd_go.Base.{
  ℕ, zero, suc, ◌+◌, ◌-◌, ◌*◌, ◌/◌, ◌%◌, ◌^◌, Bool, true, false, not, ◌&&◌, ◌||◌, Option, none,
  some, List, [], ◌∷◌, ltb, ◌==◌, if◌then◌else◌, bit_and, bit_or, bit_xor, get_elem?, set,
  replicate, ◌>>=◌,
}

abbrev pub Block : Type 0
Block = ℕ → ℕ → Bool

abbrev pub empty_block : Block
empty_block w b = false

abbrev block_bits : ℕ
block_bits = 512

-- `BloomFilter`, and `AtomicBloom`, which has the same fields.
pub record BloomFilter : Type 0 where
  pub blocks : List Block
  pub block_mask : ℕ
  pub k : ℕ

pub record SplitBloom : Type 0 where
  pub blocks : List Block
  pub block_mask : ℕ
  pub atomic_ops : Bool
  pub any_add : Bool

abbrev pub fnv_offset : ℕ
fnv_offset = 1469598103934665603

abbrev pub fnv_prime : ℕ
fnv_prime = 1099511628211

abbrev pub word : ℕ → ℕ
word n = n % 2 ^ 64

-- One round of FNV-1a.
abbrev absorb : ℕ → ℕ → ℕ
absorb h n = word (bit_xor h n * fnv_prime)

-- `binary.LittleEndian.Uint64`
abbrev little_endian : ℕ → ℕ → ℕ → ℕ → ℕ → ℕ → ℕ → ℕ → ℕ
little_endian a b c d e f g h =
    a + 256 * (b + 256 * (c + 256 * (d + 256 * (e + 256 * (f + 256 * (g + 256 * h))))))

absorb_bytes : ℕ → List ℕ → ℕ
absorb_bytes h [] = h
absorb_bytes h (b ∷ bs) = absorb_bytes (absorb h b) bs

-- Eight bytes at a time, then the bytes that are left.
pub absorb_key : ℕ → List ℕ → ℕ
unfolding absorb_bytes
absorb_key s (a ∷ b ∷ c ∷ d ∷ e ∷ f ∷ g ∷ h ∷ rest) =
    absorb_key (absorb s (little_endian a b c d e f g h)) rest
absorb_key s rest = absorb_bytes s rest

mix : ℕ → ℕ
mix h₀ =
    let h₁ = bit_xor h₀ (h₀ / 2 ^ 33) in
    let h₂ = word (h₁ * 0xff51afd7ed558ccd) in bit_xor h₂ (h₂ / 2 ^ 33)

stride : ℕ → ℕ
stride h = let g = word (h * 0x9e3779b97f4a7c15) in bit_or (bit_xor g (g / 2 ^ 29)) 1

unfoldable pub neg_hash : List ℕ → ℕ × ℕ
unfolding absorb_key mix stride
neg_hash key = let h = mix (absorb_key fnv_offset key) in (h, stride h)

-- The i-th bit of the walk through a block.
pub probe : ℕ → ℕ → ℕ → ℕ
probe h g i = bit_and (word (h / 2 ^ 9 + word (i * g))) 511

abbrev pub marked : ℕ → ℕ → Block → Block
marked w b blk w' b' = if (w' == w) && (b' == b) then true else blk w' b'

-- The loop from `i` for `n` rounds.
pub mark_loop : ℕ → ℕ → ℕ → ℕ → Block → Block
mark_loop h g i zero blk = blk
mark_loop h g i (suc n) blk =
    mark_loop h g (i + 1) n (marked (probe h g i / 64) (probe h g i % 64) blk)

pub check_loop : ℕ → ℕ → ℕ → ℕ → Block → Bool
check_loop h g i zero blk = true
check_loop h g i (suc n) blk =
    if blk (probe h g i / 64) (probe h g i % 64) then check_loop h g (i + 1) n blk else false

pub add : BloomFilter → List ℕ → Option BloomFilter
unfolding mark_loop
add f key =
    let (h, g) = neg_hash key in
    let at = bit_and h f.block_mask in
    do
      blk ← get_elem? f.blocks at
      some (record f { blocks = set f.blocks at (mark_loop h g 0 f.k blk) })

pub may_contain : BloomFilter → List ℕ → Option Bool
unfolding check_loop
may_contain f key =
    let (h, g) = neg_hash key in
    do blk ← get_elem? f.blocks (bit_and h f.block_mask); some (check_loop h g 0 f.k blk)

-- `splitSalts`, one for each word of a block.
abbrev pub split_salts : List ℕ
split_salts =
    0x9E3779B97F4A7C15 ∷ 0xC2B2AE3D27D4EB4F ∷ 0x165667B19E3779F9 ∷ 0xD6E8FEB86659FD93
    ∷ 0xA0761D6478BD642F ∷ 0xE7037ED1A0B428DB ∷ 0x8EBC6AF09C88C6E3 ∷ 0x589965CB6F1F2C9B ∷ []

-- The loop of `splitBlockCount`, which doubles `n` below `nb`, on fuel.
pub count_loop : ℕ → ℕ → ℕ → ℕ
count_loop zero n nb = n
count_loop (suc fuel) n nb =
    let rest = count_loop fuel (word (n * 2)) nb in if ltb n nb then rest else n

-- 64 doublings pass every uint64.
pub split_block_count : ℕ → ℕ
unfolding count_loop
split_block_count bit_budget = count_loop 64 64 (bit_budget / block_bits)

pub new_split_bloom : ℕ → Bool → SplitBloom
new_split_bloom bit_budget atomic_ops =
    let n = split_block_count bit_budget in
    record {
      blocks = replicate n empty_block;
      block_mask = n - 1;
      atomic_ops = atomic_ops;
      any_add = false;
    }

abbrev pub split_bit : ℕ → ℕ → ℕ
split_bit h salt = word (h * salt) / 2 ^ 58

-- The loop over the words `j` of a block.
pub split_mark : ℕ → List ℕ → ℕ → Block → Block
split_mark h [] j blk = blk
split_mark h (salt ∷ salts) j blk = split_mark h salts (j + 1) (marked j (split_bit h salt) blk)

-- `missed` says whether `miss` has a bit.
pub split_check : ℕ → List ℕ → ℕ → Block → Bool → Bool
split_check h [] j blk missed = not missed
split_check h (salt ∷ salts) j blk missed =
    split_check h salts (j + 1) blk (missed || not (blk j (split_bit h salt)))

pub split_add : SplitBloom → List ℕ → Option SplitBloom
unfolding split_mark
split_add f key =
    let h = (neg_hash key).0 in
    let at = bit_and h f.block_mask in
    do
      blk ← get_elem? f.blocks at
      some (record f { blocks = set f.blocks at (split_mark h split_salts 0 blk); any_add = true })

-- The two ways to read a word, with and without an atomic load, read the same.
pub split_may_contain : SplitBloom → List ℕ → Option Bool
unfolding split_check
split_may_contain f key =
    let h = (neg_hash key).0 in
    if not f.any_add then some false else do
      blk ← get_elem? f.blocks (bit_and h f.block_mask)
      some (split_check h split_salts 0 blk false)
