-- ===== src/Ring/Ancestor.antt =====
-- `FindCommonAncestor` does on the ring what `rollbackFork` does on the list of heads.
use sqd_go.Base.{
  ℕ, suc, ◌+◌, ◌%◌, ◌<◌, ◌≡◌, refl, true, Option, none, some, List, [], ◌∷◌, inl, inr, arith,
  get_elem?, length, Bool-cases, ltb, if◌then◌else◌,
}
use sqd_go.Chain.{BlockRef, same_hash, rollback_scan}
use sqd_go.Ring.{next, Common, nothing, at_finalized, at_block, ring_scan}
use sqd_go.Ring.Window.{Window, next-eq, Window-tail, Window-head}

-- The places in the ring and the index in the chain, whose first block is the finalized one if
-- `off` is 1.
pub data Same (off t n : ℕ) : Common → Option ℕ → Type 0 where
  neither : Same off t n nothing none
  finalized_one : off ≡ 1 → Same off t n at_finalized (some 0)
  block :
      (m at k : ℕ)
      → m < n
      → at ≡ (t + m) % 1024
      → k ≡ off + m
      → Same off t n (at_block m at) (some k)

pub record Scanned (o : Option Common) (off t n : ℕ) (r : Option ℕ) : Type 0 where
  pub common : Common
  pub returned : o ≡ some common
  pub same : Same off t n common r

-- The two scans take the same steps.
module _ (c f : BlockRef) (fs : List BlockRef) where
  pub roll_above :
      (cs : List BlockRef) (i : ℕ) (o : Option ℕ)
      → ltb f.number c.number ≡ true
      → rollback_scan (c ∷ cs) (f ∷ fs) i o ≡ rollback_scan (c ∷ cs) fs i o
  unfolding rollback_scan
  roll_above cs i o h = ground arith

  pub roll_below :
      (cs : List BlockRef) (i : ℕ) (o : Option ℕ)
      → ltb c.number f.number ≡ true
      → rollback_scan (c ∷ cs) (f ∷ fs) i o ≡ rollback_scan cs (f ∷ fs) (i + 1) o
  unfolding rollback_scan
  roll_below cs i o h = ground arith

  pub roll_level :
      (cs : List BlockRef) (i : ℕ) (o : Option ℕ)
      → c.number ≡ f.number
      → rollback_scan (c ∷ cs) (f ∷ fs) i o
        ≡ (if same_hash c f then rollback_scan cs fs (i + 1) (some i) else o)
  unfolding rollback_scan
  roll_level cs i o h = ground arith

  module _ (buffer : List BlockRef) (n at items : ℕ) (last : Common)
      (e : get_elem? buffer at ≡ some c) where
    ring_above :
        ltb f.number c.number ≡ true
        → ring_scan buffer (suc n) (f ∷ fs) at items last
          ≡ ring_scan buffer (suc n) fs at items last
    unfolding ring_scan
    ring_above h = ground arith

    ring_below :
        ltb c.number f.number ≡ true
        → ring_scan buffer (suc n) (f ∷ fs) at items last
          ≡ ring_scan buffer n (f ∷ fs) (next at) (items + 1) last
    unfolding ring_scan
    ring_below h = ground arith

    ring_level :
        c.number ≡ f.number
        → ring_scan buffer (suc n) (f ∷ fs) at items last ≡ (
            if same_hash c f
            then ring_scan buffer n fs (next at) (items + 1) (at_block items at)
            else some last)
    unfolding ring_scan
    ring_level h = ground arith

module _ (buffer : List BlockRef) (off t n : ℕ) where
  scan_over :
      (xs : List BlockRef) (at items : ℕ) (last : Common) (o : Option ℕ)
      → Same off t n last o
      → Scanned
          (ring_scan buffer (length xs) [] at items last)
          off
          t
          n
          (rollback_scan xs [] (off + items) o)
  unfolding ring_scan rollback_scan
  scan_over [] at items last o s = record { common = last; returned = refl; same = s }
  scan_over (x ∷ xs) at items last o s = record { common = last; returned = refl; same = s }

  scan_out :
      (fs : List BlockRef) (at items : ℕ) (last : Common) (o : Option ℕ)
      → Same off t n last o
      → Scanned (ring_scan buffer 0 fs at items last) off t n (rollback_scan [] fs (off + items) o)
  unfolding ring_scan rollback_scan
  scan_out fs at items last o s = record { common = last; returned = refl; same = s }

  pub scan_same :
      (xs fs : List BlockRef) (at items : ℕ) (last : Common) (o : Option ℕ)
      → at < 1024
      → at ≡ (t + items) % 1024
      → items + length xs ≡ n
      → Window buffer at xs
      → Same off t n last o
      → Scanned
          (ring_scan buffer (length xs) fs at items last)
          off
          t
          n
          (rollback_scan xs fs (off + items) o)
  scan_same [] fs at items last o h e total w s = scan_out fs at items last o s
  scan_same (x ∷ xs) [] at items last o h e total w s = scan_over (x ∷ xs) at items last o s
  scan_same (x ∷ xs) (f ∷ fs) at items last o h e total w s =
      let idx : off + items + 1 ≡ off + (items + 1) = omega arith in
      let up : (at + 1) % 1024 ≡ (t + (items + 1)) % 1024 = omega arith in
      let w' : Window buffer ((at + 1) % 1024) xs = Window-tail buffer at x xs w in
      let here : get_elem? buffer at ≡ some x = Window-head buffer at x xs h w in
      elim (Bool-cases (ltb f.number x.number)) [
        | inl above ↦
            rw
              (
                ring_above x f fs buffer (length xs) at items last here above,
                roll_above x f fs xs (off + items) o above,
              )
              (scan_same (x ∷ xs) fs at items last o h e total w s)
        | inr not_above ↦ elim (Bool-cases (ltb x.number f.number)) [
          | inl below ↦
              rw
                (
                  ring_below x f fs buffer (length xs) at items last here below,
                  roll_below x f fs xs (off + items) o below,
                  next-eq at h,
                  idx,
                )
                (scan_same xs (f ∷ fs) ((at + 1) % 1024) (items + 1) last o (omega arith) up
                  (omega arith) w' s)
          | inr not_below ↦
              let level : x.number ≡ f.number = ground arith in
              rw
                (
                  ring_level x f fs buffer (length xs) at items last here level,
                  roll_level x f fs xs (off + items) o level,
                )
                (elim (Bool-cases (same_hash x f)) [
                  | inl same ↦
                      rw (same, next-eq at h, idx)
                        (scan_same xs fs ((at + 1) % 1024) (items + 1) (at_block items at)
                          (some (off + items)) (omega arith) up (omega arith) w'
                          (block items at (off + items) (omega arith) e refl))
                  | inr differs ↦ rw differs (record { common = last; returned = refl; same = s })
                ])
        ]
      ]
