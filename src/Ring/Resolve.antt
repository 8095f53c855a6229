-- ===== src/Ring/Resolve.antt =====
-- `FindCommonAncestor` of the ring against `rollbackFork` of `processorState`.
use sqd_go.Base.{
  ℕ, zero, suc, ◌+◌, ◌%◌, ◌<◌, ◌≡◌, refl, sym, subst, ap, ◌∙◌, true, false, Option, none, some,
  List, [], ◌∷◌, inl, inr, arith, get_elem?, length, take, Bool-cases, ◌==◌, ==_iff, ltb,
  if◌then◌else◌, ◌>>=◌, length-take, get_elem?-take,
}
use sqd_go.Chain.{
  BlockRef, same_hash, rollback_scan, find_rollback_index, all_before_loop, all_blocks_before,
}
use sqd_go.Fork.{
  ProcessorState, Result, ok, err, ForkError, start_index, with_finalized, rollback_failed,
  rollback_to, rollback_fork,
}
use sqd_go.Ring.{
  Ring, Common, nothing, at_finalized, at_block, Start, mismatch, start, match_finalized, ring_scan,
  roll_to, scan_from, find_common_ancestor, Outcome, found, failed, RingError, cleared, empty_fork,
}
use sqd_go.Ring.Window.{Represents}
use sqd_go.Ring.Push.{Represents-nil}
use sqd_go.Ring.Ancestor.{
  Same, neither, finalized_one, block, scan_same, roll_above, roll_level, roll_below,
}

all_before_false :
    (bs : List BlockRef) (n : ℕ) → all_before_loop bs n ≡ false → all_blocks_before bs n ≡ false
unfolding all_blocks_before
all_before_false [] n e = refl
all_before_false (b ∷ bs) n e = e

-- Where the fork meets the finalized head, the list scan is past the chain's first block.
data Met (f : BlockRef) (heads fork : List BlockRef) (t n : ℕ) : Start → Type 0 where
  refused :
      rollback_scan (f ∷ heads) fork 0 none ≡ none
      → all_before_loop fork f.number ≡ false
      → Met f heads fork t n mismatch
  begun :
      (c : Common) (rest : List BlockRef) (o : Option ℕ)
      → Same 1 t n c o
      → rollback_scan (f ∷ heads) fork 0 none ≡ rollback_scan heads rest 1 o
      → Met f heads fork t n (start c rest)

roll_nil : (cs : List BlockRef) (i : ℕ) (o : Option ℕ) → rollback_scan cs [] i o ≡ o
unfolding rollback_scan
roll_nil [] i o = refl
roll_nil (c ∷ cs) i o = refl

module _ (f : BlockRef) (heads : List BlockRef) (t n : ℕ) where
  roll_over : rollback_scan (f ∷ heads) [] 0 none ≡ rollback_scan heads [] 1 none
  roll_over = roll_nil (f ∷ heads) 0 none ∙ sym (roll_nil heads 1 none)

  Met-level :
      (b : BlockRef) (bs : List BlockRef)
      → f.number ≡ b.number
      → Met f heads (b ∷ bs) t n (if same_hash f b then start at_finalized bs else mismatch)
  unfolding all_before_loop
  Met-level b bs level = elim (Bool-cases (same_hash f b)) [
    | inl same ↦ rw same (
        begun at_finalized bs (some 0) (finalized_one refl)
          (roll_level f b bs heads 0 none level ∙ rw same))
    | inr differs ↦
        rw differs (refused (roll_level f b bs heads 0 none level ∙ rw differs) (ground arith))
  ]

  meets : (fork : List BlockRef) → Met f heads fork t n (match_finalized (some f) fork)
  unfolding match_finalized all_before_loop
  meets [] = begun nothing [] none neither roll_over
  meets (b ∷ bs) = elim (Bool-cases (ltb b.number f.number)) [
    | inl older ↦ rw older (skipped (match_finalized (some f) bs) older (meets bs))
    | inr newer ↦ elim (Bool-cases (f.number == b.number)) [
      | inl level ↦ rw (newer, level) (Met-level b bs ((==_iff f.number b.number).0 level))
      | inr above ↦
          rw (newer, above)
            (begun nothing (b ∷ bs) none neither (roll_below f b bs heads 0 none (ground arith)))
    ]
  ]
    where
      skipped :
          (s : Start)
          → ltb b.number f.number ≡ true
          → Met f heads bs t n s
          → Met f heads (b ∷ bs) t n s
      skipped mismatch older (refused p q) =
          refused (roll_above f b bs heads 0 none older ∙ p) (ground arith)
      skipped (start _ _) older (begun c rest o same p) =
          begun c rest o same (roll_above f b bs heads 0 none older ∙ p)

-- The same answer from the ring and from the list, with the same blocks left; or an error from both
-- and no change to either.
pub data SameFork (r : Ring) (s : ProcessorState)
    : Option (Outcome × Ring) → Result BlockRef × ProcessorState → Type 0 where
  both_found :
      (b : BlockRef) (r' : Ring) (s' : ProcessorState)
      → Represents r' s'.unfinalized_heads
      → r'.finalized_head ≡ s'.finalized_head
      → SameFork r s (some (found (some b), r')) (ok b, s')
  both_failed : (e : RingError) (e' : ForkError) → SameFork r s (some (failed e, r)) (err e', s)

get_elem?-total :
    (bs : List BlockRef) (k : ℕ) → k < length bs → (e : BlockRef) × (get_elem? bs k ≡ some e)
get_elem?-total [] k h = absurd (omega arith)
get_elem?-total (b ∷ bs) zero h = (b, refl)
get_elem?-total (b ∷ bs) (suc k) h = get_elem?-total bs k (omega arith)

abbrev pub state_of : Option BlockRef → List BlockRef → ProcessorState
state_of o heads = record { finalized_head = o; unfinalized_heads = heads }

-- The finalized head varies, so that the cases can match on it.
module _ (r₀ : Ring) (heads : List BlockRef) (v : Represents r₀ heads) where
  abbrev under : Option BlockRef → Ring
  under o = record r₀ { finalized_head = o }

  cleared-Represents : (o : Option BlockRef) → Represents (cleared (under o)) []
  cleared-Represents o = Represents-nil (cleared (under o)) v.size (omega arith) refl

  abbrev cut : Option BlockRef → ℕ → ℕ → Ring
  cut o m at = record (under o) { head = some at; count = m + 1 }

  cut-Represents :
      (o : Option BlockRef) (m at : ℕ)
      → m < length heads
      → at ≡ (r₀.tail + m) % 1024
      → Represents (cut o m at) (take (suc m) heads)
  cut-Represents o m at lt e =
      let len : length (take (suc m) heads) ≡ suc m = omega (arith, length-take (suc m) heads) in
      record {
        size = v.size;
        tail_in = v.tail_in;
        counted = omega (arith, len);
        bounded = omega (arith, len, v.bounded);
        newest = λ p. ap some (omega (arith, len));
        window = λ k p.
            v.window k (omega (arith, len))
            ∙ sym (get_elem?-take (suc m) heads k (omega (arith, len)));
      }

  module _ (fork : List BlockRef) where
    -- What `rollbackFork` does with the index.
    abbrev rolled : Option BlockRef → Option ℕ → Result BlockRef × ProcessorState
    rolled o none = rollback_failed (state_of o heads) o fork
    rolled o (some k) = rollback_to (state_of o heads) k (get_elem? (with_finalized o heads) k)

    rolled-eq :
        (o : Option BlockRef)
        → rollback_fork (state_of o heads) fork
          ≡ rolled o (find_rollback_index (with_finalized o heads) fork)
    unfolding rollback_fork
    rolled-eq o = go (find_rollback_index (with_finalized o heads) fork) refl
      where
        go :
            (k : Option ℕ)
            → find_rollback_index (with_finalized o heads) fork ≡ k
            → rollback_fork (state_of o heads) fork ≡ rolled o k
        go none e = rw (e, rollback_fork)
        go (some k) e = rw (e, rollback_fork)

    abbrev Alike : Option BlockRef → Common → Option ℕ → Type 0
    Alike o c k = SameFork (under o) (state_of o heads) (roll_to (under o) fork c) (rolled o k)

    Alike-neither : (o : Option BlockRef) → Alike o nothing none
    unfolding roll_to rollback_failed
    Alike-neither none = both_failed _ _
    Alike-neither (some f) = elim (Bool-cases (all_blocks_before fork f.number)) [
      | inl old ↦ rw old (both_found f _ _ (cleared-Represents (some f)) refl)
      | inr new ↦ rw new (both_failed _ _)
    ]

    Alike-finalized : (o : Option BlockRef) → start_index o ≡ 1 → Alike o at_finalized (some 0)
    unfolding roll_to rollback_to
    Alike-finalized none e = absurd (omega arith)
    Alike-finalized (some f) e = both_found f _ _ (cleared-Represents (some f)) refl

    Alike-block :
        (o : Option BlockRef) (m at k : ℕ)
        → m < length heads
        → at ≡ (r₀.tail + m) % 1024
        → k ≡ start_index o + m
        → Alike o (at_block m at) (some k)
    unfolding roll_to rollback_to
    Alike-block none m at k lt e i =
        let (b, here) = get_elem?-total heads m lt in
        let place : get_elem? r₀.buffer at ≡ some b = rw e (v.window m lt ∙ here) in
        let index : k ≡ m = omega arith in
        rw (place, index, roll_to)
          (rw (here, rollback_to)
            (both_found b _ _
              (subst (λ n. Represents (cut none m at) (take n heads)) {x = suc m} (omega arith)
                (cut-Represents none m at lt e))
              refl))
    Alike-block (some f) m at k lt e i =
        let (b, here) = get_elem?-total heads m lt in
        let place : get_elem? r₀.buffer at ≡ some b = rw e (v.window m lt ∙ here) in
        let index : k ≡ suc m = omega arith in
        let later : suc m + 1 ≡ suc (suc m) = omega arith in
        rw (place, index, roll_to)
          (rw (here, rollback_to)
            (rw later (both_found b _ _ (cut-Represents (some f) m at lt e) refl)))

    alike :
        (o : Option BlockRef) (off : ℕ) (c : Common) (k : Option ℕ)
        → off ≡ start_index o
        → Same off r₀.tail (length heads) c k
        → Alike o c k
    alike o off nothing none e neither = Alike-neither o
    alike o off nothing (some _) e s = elim s [ ]
    alike o off at_finalized none e s = elim s [ ]
    alike o off (at_block _ _) none e s = elim s [ ]
    alike o off at_finalized (some _) e (finalized_one one) = Alike-finalized o (sym e ∙ one)
    alike o off (at_block _ _) (some _) e (block m at k lt p q) =
        Alike-block o m at k lt p (omega arith)

    alike_scanned :
        (o : Option BlockRef) (off : ℕ) (rest : List BlockRef) (c : Common) (k : Option ℕ)
        → off ≡ start_index o
        → Same off r₀.tail (length heads) c k
        → SameFork
            (under o)
            (state_of o heads)
            (scan_from (under o) fork (start c rest))
            (rolled o (rollback_scan heads rest off k))
    unfolding scan_from
    alike_scanned o off rest c k e same =
        let z : off + 0 ≡ off = omega arith in
        let s =
          scan_same r₀.buffer off r₀.tail (length heads) heads rest r₀.tail 0 c k v.tail_in
            (omega (arith, v.tail_in)) (omega arith) v.window same in
        let same' : Same off r₀.tail (length heads) s.common (rollback_scan heads rest off k) =
          subst (λ j. Same off r₀.tail (length heads) s.common (rollback_scan heads rest j k)) z
            s.same in
        let scanned : ring_scan r₀.buffer r₀.count rest r₀.tail 0 c ≡ some s.common =
          ap (λ n. ring_scan r₀.buffer n rest r₀.tail 0 c) v.counted ∙ s.returned in
        subst
          (λ q.
            SameFork (under o) (state_of o heads) (q >>= λ last. roll_to (under o) fork last)
              (rolled o (rollback_scan heads rest off k)))
          (sym scanned) (alike o off s.common _ e same')

    alike-Met :
        (f : BlockRef) (s : Start)
        → Met f heads fork r₀.tail (length heads) s
        → SameFork
            (under (some f))
            (state_of (some f) heads)
            (scan_from (under (some f)) fork s)
            (rolled (some f) (rollback_scan (f ∷ heads) fork 0 none))
    unfolding scan_from rollback_failed
    alike-Met f mismatch (refused p q) = rw (p, all_before_false fork f.number q) (both_failed _ _)
    alike-Met f (start _ _) (begun c rest o same p) =
        rw p (alike_scanned (some f) 1 rest c o refl same)

    alike_fork :
        (o : Option BlockRef)
        → SameFork
            (under o)
            (state_of o heads)
            (scan_from (under o) fork (match_finalized o fork))
            (rolled o (find_rollback_index (with_finalized o heads) fork))
    unfolding find_rollback_index match_finalized
    alike_fork none = alike_scanned none 0 fork nothing none refl neither
    alike_fork (some f) = alike-Met f _ (meets f heads r₀.tail (length heads) fork)

alike_nil :
    (r₀ : Ring) (heads : List BlockRef) (v : Represents r₀ heads) (o : Option BlockRef)
    → SameFork
        (under r₀ heads v o)
        (state_of o heads)
        (some (failed empty_fork, under r₀ heads v o))
        (rollback_fork (state_of o heads) [])
unfolding find_rollback_index rollback_failed all_blocks_before
alike_nil r₀ heads v none =
    rw (rolled-eq r₀ heads v [] none, roll_nil heads 0 none) (both_failed _ _)
alike_nil r₀ heads v (some f) = rw (rolled-eq r₀ heads v [] (some f)) (both_failed _ _)

-- On a ring that holds the heads `heads`, `FindCommonAncestor` does not panic and does what
-- `rollbackFork` does on the state with these heads and the same finalized head: both give the same
-- block, and the ring is left with the heads that the state is left with; or both fail, and neither
-- changes.
pub find_common_ancestor_refines :
    (r : Ring) (heads fork : List BlockRef)
    → Represents r heads
    → SameFork r
        (state_of r.finalized_head heads)
        (find_common_ancestor r fork)
        (rollback_fork (state_of r.finalized_head heads) fork)
unfolding find_common_ancestor
find_common_ancestor_refines r heads [] v = alike_nil r heads v r.finalized_head
find_common_ancestor_refines r heads (b ∷ bs) v =
    rw (rolled-eq r heads v (b ∷ bs) r.finalized_head)
      (alike_fork r heads v (b ∷ bs) r.finalized_head)
