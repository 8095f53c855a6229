-- ===== src/Replay/Index.antt =====
-- Ascending entries, and the map from their numbers to their positions.
use sqd_go.Base.{
  ℕ, suc, ◌+◌, ◌%◌, ◌≤◌, ◌<◌, ◌≡◌, ◌≢◌, refl, sym, ap, subst, ◌∙◌, length, inl, inr, true, false,
  Bool-cases, Option, none, some, List, [], ◌∷◌, ◌++◌, arith, ◌==◌, if◌then◌else◌,
}
use sqd_go.Replay.{Kinds, BlockEntry, Index, lookup, delete, put}

lookup-delete_self : (m : Index) (n : ℕ) → lookup (delete m n) n ≡ none
lookup-delete_self [] n = refl
lookup-delete_self ((k, v) ∷ m) n = ground (arith, lookup-delete_self m n)

lookup-delete_ne : (m : Index) (n k : ℕ) → n ≢ k → lookup (delete m n) k ≡ lookup m k
lookup-delete_ne [] n k h = refl
lookup-delete_ne ((j, v) ∷ m) n k h = ground (arith, lookup-delete_ne m n k h)

pub lookup-put_self : (m : Index) (n v : ℕ) → lookup (put m n v) n ≡ some v
lookup-put_self m n v = ground arith

pub lookup-put_ne : (m : Index) (n v k : ℕ) → n ≢ k → lookup (put m n v) k ≡ lookup m k
lookup-put_ne m n v k h =
    let same : (n == k) ≡ false = ground arith in rw same (lookup-delete_ne m n k h)

module _ {K : Kinds} where
  -- Strictly ascending, from `b` on.
  pub data From : ℕ → List (BlockEntry K) → Type 0 where
    from_nil : {b : ℕ} → From b []
    from_cons :
        {b : ℕ} (e : BlockEntry K) (es : List (BlockEntry K))
        → b ≤ e.number
        → From (e.number + 1) es
        → From b (e ∷ es)

  pub data Below : ℕ → List (BlockEntry K) → Type 0 where
    below_nil : {b : ℕ} → Below b []
    below_cons :
        {b : ℕ} (e : BlockEntry K) (es : List (BlockEntry K))
        → e.number < b
        → Below b es
        → Below b (e ∷ es)

  -- The first entry with the number.
  unfoldable pub find : ℕ → List (BlockEntry K) → Option (BlockEntry K)
  find n [] = none
  find n (e ∷ es) = if e.number == n then some e else find n es

  -- The numbers with the positions of entries that stand from `s` on.
  unfoldable pub indexed : ℕ → ℕ → List (BlockEntry K) → Index
  indexed c s [] = []
  indexed c s (e ∷ es) = (e.number, s % c) ∷ indexed c (s + 1) es

  pub From-weaken : {a b : ℕ} (es : List (BlockEntry K)) → a ≤ b → From b es → From a es
  From-weaken [] h from_nil = from_nil
  From-weaken (_ ∷ _) h (from_cons e es l f) = from_cons e es (omega arith) f

  pub From-rest :
      {b : ℕ} (e : BlockEntry K) (es : List (BlockEntry K)) → From b (e ∷ es) → From b es
  From-rest _ _ (from_cons e es l f) = From-weaken es (omega arith) f

  pub From-snoc :
      {b : ℕ} (es : List (BlockEntry K)) (e : BlockEntry K)
      → From b es
      → Below e.number es
      → b ≤ e.number
      → From b (es ++ (e ∷ []))
  From-snoc [] e from_nil below_nil h = from_cons e [] h from_nil
  From-snoc (_ ∷ _) e (from_cons x xs l f) (below_cons _ _ lt bs) h =
      from_cons x _ l (From-snoc xs e f bs (omega arith))

  pub lookup-indexed_before :
      {b : ℕ} (c s k : ℕ) (es : List (BlockEntry K))
      → From b es
      → k < b
      → lookup (indexed c s es) k ≡ none
  unfolding indexed
  lookup-indexed_before c s k [] from_nil h = refl
  lookup-indexed_before c s k (_ ∷ _) (from_cons e es l f) h =
      ground (arith, lookup-indexed_before c (s + 1) k es f (omega arith))

  pub lookup-indexed_above :
      {b : ℕ} (c s k : ℕ) (es : List (BlockEntry K))
      → Below b es
      → b ≤ k
      → lookup (indexed c s es) k ≡ none
  unfolding indexed
  lookup-indexed_above c s k [] below_nil h = refl
  lookup-indexed_above c s k (_ ∷ _) (below_cons e es l f) h =
      ground (arith, lookup-indexed_above c (s + 1) k es f h)

  lookup-snoc_self :
      (c s : ℕ) (es : List (BlockEntry K)) (e : BlockEntry K)
      → Below e.number es
      → lookup (indexed c s (es ++ (e ∷ []))) e.number ≡ some ((s + length es) % c)
  unfolding indexed
  lookup-snoc_self c s [] e below_nil =
      let same : (e.number == e.number) ≡ true = ground arith in
      rw same (ap (λ t. some (t % c)) {x = s} {y = s + 0} (omega arith))
  lookup-snoc_self c s (_ ∷ _) e (below_cons x xs l b) =
      let other : (x.number == e.number) ≡ false = ground arith in
      rw other (
        lookup-snoc_self c (s + 1) xs e b
        ∙ ap (λ t. some (t % c)) {x = s + 1 + length xs} {y = s + suc (length xs)} (omega arith))

  lookup-snoc_ne :
      (c s k : ℕ) (es : List (BlockEntry K)) (e : BlockEntry K)
      → e.number ≢ k
      → lookup (indexed c s (es ++ (e ∷ []))) k ≡ lookup (indexed c s es) k
  unfolding indexed
  lookup-snoc_ne c s k [] e h = ground arith
  lookup-snoc_ne c s k (x ∷ xs) e h = rw (lookup-snoc_ne c (s + 1) k xs e h) refl

  -- A new entry at the end is put into the map.
  pub indexed-snoc :
      (c s k : ℕ) (m : Index) (es : List (BlockEntry K)) (e : BlockEntry K) (v : ℕ)
      → Below e.number es
      → v ≡ (s + length es) % c
      → ((j : ℕ) → lookup m j ≡ lookup (indexed c s es) j)
      → lookup (put m e.number v) k ≡ lookup (indexed c s (es ++ (e ∷ []))) k
  indexed-snoc c s k m es e v b p h = elim (Bool-cases (e.number == k)) [
    | inl yes_ ↦
        let same : e.number ≡ k = ground arith in
        subst (λ j. lookup (put m e.number v) j ≡ lookup (indexed c s (es ++ (e ∷ []))) j) same
          (lookup-put_self m e.number v ∙ ap some p ∙ sym (lookup-snoc_self c s es e b))
    | inr no_ ↦
        let other : e.number ≢ k = ground arith in
        lookup-put_ne m e.number v k other ∙ h k ∙ sym (lookup-snoc_ne c s k es e other)
  ]

  -- Without its first entry, the map has the rest.
  pub indexed-tail :
      {b : ℕ} (c s k : ℕ) (m : Index) (e : BlockEntry K) (es : List (BlockEntry K))
      → From b (e ∷ es)
      → ((j : ℕ) → lookup m j ≡ lookup (indexed c s (e ∷ es)) j)
      → lookup (delete m e.number) k ≡ lookup (indexed c (s + 1) es) k
  unfolding indexed
  indexed-tail c s k m e es (from_cons _ _ l f) h = elim (Bool-cases (e.number == k)) [
    | inl yes_ ↦
        let same : e.number ≡ k = ground arith in
        subst (λ j. lookup (delete m e.number) j ≡ lookup (indexed c (s + 1) es) j) same
          (lookup-delete_self m e.number
            ∙ sym (lookup-indexed_before c (s + 1) e.number es f (omega arith)))
    | inr no_ ↦
        let other : e.number ≢ k = ground arith in
        lookup-delete_ne m e.number k other ∙ h k ∙ rw no_ refl
  ]
