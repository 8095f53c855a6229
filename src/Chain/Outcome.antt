-- ===== src/Chain/Outcome.antt =====
-- What the walk of `Agreement` returns.
use sqd_go.Base.{
  ℕ, zero, suc, ◌+◌, ◌≤◌, ◌≡◌, refl, sym, subst, ap, ◌∙◌, false, Option, none, some, List, [], ◌∷◌,
  inl, inr, Bool-cases, Option-cases, arith, eq_iff, get_elem?,
}
use sqd_go.Chain.{BlockRef, same_hash, find_rollback_index}
use sqd_go.Chain.Order.{Holds, Ascending}
use sqd_go.Chain.Agreement.{
  block_at, last_agreed, Agrees, Clashes, Behind, IsAncestor, block_at-Holds, Holds-block_at,
}
use sqd_go.Chain.Rollback.{find_rollback_index_agrees}

module _ (fork : List BlockRef) (up : Ascending fork) where
  -- How the fork stands to one block of the current chain.
  data Look (c : BlockRef) : Type 0 where
    absent : block_at c.number fork ≡ none → Look c
    meets : block_at c.number fork ≡ some c → Look c
    clashes : (f : BlockRef) → block_at c.number fork ≡ some f → same_hash c f ≡ false → Look c

  look : (c : BlockRef) → Look c
  look c = elim (Option-cases (block_at c.number fork)) [
    | inl e ↦ absent e
    | inr (f, e) ↦ elim (Bool-cases (same_hash c f)) [
      | inl s ↦
          let same : c.hash ≡ f.hash = (eq_iff c.hash f.hash).0 s in
          let at : f.number ≡ c.number = (Holds-block_at c.number fork f e).1 in
          meets (e ∙ ap some (ground arith))
      | inr s ↦ clashes f e s
    ]
  ]

  Agrees-absent : (c : BlockRef) → block_at c.number fork ≡ none → Agrees fork c
  Agrees-absent c e f h n =
      let at : block_at f.number fork ≡ some f = block_at-Holds fork f up h in
      cc (ap (λ k. block_at k fork) n)

  Agrees-meets : (c : BlockRef) → block_at c.number fork ≡ some c → Agrees fork c
  Agrees-meets c e f h n =
      let at : block_at f.number fork ≡ some f = block_at-Holds fork f up h in
      cc (ap (λ k. block_at k fork) n)

  data Outcome (cs : List BlockRef) (i : ℕ) (last : Option ℕ) : Option ℕ → Type 0 where
    kept : Behind fork cs → Outcome cs i last last
    moved : (m k : ℕ) → k ≡ i + m → IsAncestor cs fork m → Outcome cs i last (some k)

  Behind-skip :
      (c : BlockRef) (cs : List BlockRef) → ¬ Holds fork c → Behind fork cs → Behind fork (c ∷ cs)
  Behind-skip c cs out b zero d e h = absurd (out (subst (Holds fork) (ground arith) h))
  Behind-skip c cs out b (suc j) d e h =
      let (i, c', lt, at, clash) = b j d e h in (suc i, c', omega arith, at, clash)

  IsAncestor-up :
      (c : BlockRef) (cs : List BlockRef) (m : ℕ)
      → Agrees fork c
      → IsAncestor cs fork m
      → IsAncestor (c ∷ cs) fork (suc m)
  IsAncestor-up c cs m agrees a = record {
    block = a.block;
    found = a.found;
    shared = a.shared;
    clean = below;
    newest = a.newest;
  }
    where
      below : (j : ℕ) (d : BlockRef) → j ≤ suc m → get_elem? (c ∷ cs) j ≡ some d → Agrees fork d
      below zero d le e = subst (Agrees fork) (ground arith) agrees
      below (suc j) d le e = a.clean j d (omega arith) e

  absent-not-Holds : (c : BlockRef) → block_at c.number fork ≡ none → ¬ Holds fork c
  absent-not-Holds c e h = cc (block_at-Holds fork c up h)

  outcome_absent :
      (c : BlockRef) (cs : List BlockRef) (i : ℕ) (last : Option ℕ) {r : Option ℕ}
      → block_at c.number fork ≡ none
      → Outcome cs (i + 1) last r
      → Outcome (c ∷ cs) i last r
  outcome_absent c cs i last e (kept b) = kept (Behind-skip c cs (absent-not-Holds c e) b)
  outcome_absent c cs i last e (moved m k p a) =
      moved (suc m) k (omega arith) (IsAncestor-up c cs m (Agrees-absent c e) a)

  IsAncestor-here :
      (c : BlockRef) (cs : List BlockRef)
      → block_at c.number fork ≡ some c
      → Behind fork cs
      → IsAncestor (c ∷ cs) fork 0
  IsAncestor-here c cs e b = record {
    block = c;
    found = refl;
    shared = (Holds-block_at c.number fork c e).0;
    clean = below;
    newest = b;
  }
    where
      below : (j : ℕ) (d : BlockRef) → j ≤ 0 → get_elem? (c ∷ cs) j ≡ some d → Agrees fork d
      below zero d le at = subst (Agrees fork) (ground arith) (Agrees-meets c e)
      below (suc j) d le at = absurd (omega arith)

  outcome_meets :
      (c : BlockRef) (cs : List BlockRef) (i : ℕ) (last : Option ℕ) {r : Option ℕ}
      → block_at c.number fork ≡ some c
      → Outcome cs (i + 1) (some i) r
      → Outcome (c ∷ cs) i last r
  outcome_meets c cs i last e (kept b) = moved 0 i (omega arith) (IsAncestor-here c cs e b)
  outcome_meets c cs i last e (moved m k p a) =
      moved (suc m) k (omega arith) (IsAncestor-up c cs m (Agrees-meets c e) a)

  Behind-clash : (c : BlockRef) (cs : List BlockRef) → Clashes fork c → Behind fork (c ∷ cs)
  Behind-clash c cs (f, held, at, other) zero d e h =
      let fd : block_at d.number fork ≡ some d = block_at-Holds fork d up h in
      let ff : block_at f.number fork ≡ some f = block_at-Holds fork f up held in
      absurd (other (cc (ap (λ k. block_at k fork) at)))
  Behind-clash c cs clash (suc j) d e h = (0, c, omega arith, refl, clash)

  clash_of :
      (c f : BlockRef) → block_at c.number fork ≡ some f → same_hash c f ≡ false → Clashes fork c
  clash_of c f e s =
      let at = Holds-block_at c.number fork f e in
      (f, at.0, at.1, λ p. cc ((eq_iff c.hash f.hash).1 (sym p)))

  walk :
      (cs : List BlockRef) (i : ℕ) (last : Option ℕ)
      → Outcome cs i last (last_agreed cs fork i last)
  unfolding last_agreed
  walk [] i last = kept (λ j d e h. cc)
  walk (c ∷ cs) i last = elim (look c) [
    | absent e ↦ rw (e, last_agreed) (outcome_absent c cs i last e (walk cs (i + 1) last))
    | meets e ↦
        rw (e, last_agreed)
          (rw ((eq_iff c.hash c.hash).1 refl, last_agreed)
            (outcome_meets c cs i last e (walk cs (i + 1) (some i))))
    | clashes f e s ↦
        rw (e, last_agreed) (rw (s, last_agreed) (kept (Behind-clash c cs (clash_of c f e s))))
  ]

  IsAncestor-of :
      (cs : List BlockRef) (r : Option ℕ) (k : ℕ)
      → Outcome cs 0 none r
      → r ≡ some k
      → IsAncestor cs fork k
  IsAncestor-of cs r k (kept b) e = cc
  IsAncestor-of cs r k (moved m n p a) e = subst (IsAncestor cs fork) (ground arith) a

  Behind-of : (cs : List BlockRef) (r : Option ℕ) → Outcome cs 0 none r → r ≡ none → Behind fork cs
  Behind-of cs r (kept b) e = b
  Behind-of cs r (moved m n p a) e = cc

-- For two chains of ascending numbers, the index that `findRollbackIndex` returns is that of a
-- block that the fork holds too; up to it no block has another hash in the fork; and every later
-- block that the fork holds stands above a block that has another hash there.
pub find_rollback_index-IsAncestor :
    (current fork : List BlockRef) (k : ℕ)
    → Ascending current
    → Ascending fork
    → find_rollback_index current fork ≡ some k
    → IsAncestor current fork k
find_rollback_index-IsAncestor current fork k a b e =
    IsAncestor-of fork b current _ k (walk fork b current 0 none)
      (sym (find_rollback_index_agrees current fork a b) ∙ e)

-- For two chains of ascending numbers, if `findRollbackIndex` returns -1, then every block that the
-- chains share stands above a block of the current chain that has another hash in the fork.
pub find_rollback_index-Behind :
    (current fork : List BlockRef)
    → Ascending current
    → Ascending fork
    → find_rollback_index current fork ≡ none
    → Behind fork current
find_rollback_index-Behind current fork a b e =
    Behind-of fork b current _ (walk fork b current 0 none)
      (sym (find_rollback_index_agrees current fork a b) ∙ e)
