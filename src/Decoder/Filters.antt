-- ===== src/Decoder/Filters.antt =====
-- What the removal of duplicates keeps.
use sqd_go.Base.{
  ◌≡◌, refl, sym, ap, ◌∙◌, subst, Bool, true, false, ◌||◌, List, [], ◌∷◌, inl, inr, bytes_equal,
  bytes_equal_iff, Bool-cases, arith,
}
use sqd_go.Decoder.{Text, Packages, has_key, lowered, dedupe_loop, dedupe_strings}

-- No key twice.
abbrev pub DistinctKeys : List Text → Type 0
DistinctKeys [] = Unit {0}
DistinctKeys (k ∷ ks) = (has_key k ks ≡ false) × DistinctKeys ks

has_key-eq :
    (x k : Text) (seen : List Text)
    → bytes_equal x k ≡ true
    → has_key x seen ≡ true
    → has_key k seen ≡ true
has_key-eq x k seen e h = ap (λ y. has_key y seen) (sym ((bytes_equal_iff x k).0 e)) ∙ h

has_key_self : (x : Text) (xs : List Text) → has_key x (x ∷ xs) ≡ true
unfolding has_key
has_key_self x xs = ground (arith, (bytes_equal_iff x x).1 refl)

module _ (p : Packages) where
  dedupe_loop-keys :
      (seen vs : List Text) (k : Text)
      → (has_key k (lowered p (dedupe_loop p seen vs)) || has_key k seen)
        ≡ (has_key k (lowered p vs) || has_key k seen)
  unfolding dedupe_loop has_key
  dedupe_loop-keys seen [] k = refl
  dedupe_loop-keys seen (v ∷ vs) k =
      let kept : Bool → List Text = λ b. elim b [
        | true ↦ dedupe_loop p seen vs
        | false ↦ v ∷ dedupe_loop p (p.to_lower v ∷ seen) vs
      ] in
      elim (Bool-cases (has_key (p.to_lower v) seen)) [
        | inl yes_ ↦
            let same : bytes_equal (p.to_lower v) k ≡ true → has_key k seen ≡ true =
              λ h. has_key-eq (p.to_lower v) k seen h yes_ in
            ap (λ b. has_key k (lowered p (kept b)) || has_key k seen) yes_
            ∙ ground (arith, same, dedupe_loop-keys seen vs k)
        | inr no_ ↦
            ap (λ b. has_key k (lowered p (kept b)) || has_key k seen) no_
            ∙ ground (arith, dedupe_loop-keys (p.to_lower v ∷ seen) vs k)
      ]

  dedupe_loop-new :
      (seen vs : List Text) (k : Text)
      → has_key k seen ≡ true
      → has_key k (lowered p (dedupe_loop p seen vs)) ≡ false
  unfolding dedupe_loop has_key
  dedupe_loop-new seen [] k h = refl
  dedupe_loop-new seen (v ∷ vs) k h =
      let kept : Bool → List Text = λ b. elim b [
        | true ↦ dedupe_loop p seen vs
        | false ↦ v ∷ dedupe_loop p (p.to_lower v ∷ seen) vs
      ] in
      elim (Bool-cases (has_key (p.to_lower v) seen)) [
        | inl yes_ ↦ ap (λ b. has_key k (lowered p (kept b))) yes_ ∙ dedupe_loop-new seen vs k h
        | inr no_ ↦
            let other : bytes_equal (p.to_lower v) k ≡ true → ⊥ =
              λ e. cc (ap (λ y. has_key y seen) ((bytes_equal_iff (p.to_lower v) k).0 e), h, no_) in
            ap (λ b. has_key k (lowered p (kept b))) no_
            ∙ ground (arith, other, dedupe_loop-new (p.to_lower v ∷ seen) vs k (ground (arith, h)))
      ]

  dedupe_loop-distinct : (seen vs : List Text) → DistinctKeys (lowered p (dedupe_loop p seen vs))
  unfolding dedupe_loop
  dedupe_loop-distinct seen [] = tt
  dedupe_loop-distinct seen (v ∷ vs) =
      let kept : Bool → List Text = λ b. elim b [
        | true ↦ dedupe_loop p seen vs
        | false ↦ v ∷ dedupe_loop p (p.to_lower v ∷ seen) vs
      ] in
      elim (Bool-cases (has_key (p.to_lower v) seen)) [
        | inl yes_ ↦
            subst (λ b. DistinctKeys (lowered p (kept b))) (sym yes_) (dedupe_loop-distinct seen vs)
        | inr no_ ↦
            subst (λ b. DistinctKeys (lowered p (kept b))) (sym no_)
              (
                dedupe_loop-new (p.to_lower v ∷ seen) vs (p.to_lower v)
                    (has_key_self (p.to_lower v) seen),
                dedupe_loop-distinct (p.to_lower v ∷ seen) vs,
              )
      ]

  -- `dedupeStrings` keeps a text for every key, up to letter case as `to_lower` has it, and no key twice.
  pub dedupe_strings-keys :
      (values : List Text)
      → ((k : Text)
          → has_key k (lowered p (dedupe_strings p values)) ≡ has_key k (lowered p values))
        × DistinctKeys (lowered p (dedupe_strings p values))
  unfolding dedupe_strings has_key
  dedupe_strings-keys values =
      (λ k. ground (arith, dedupe_loop-keys [] values k), dedupe_loop-distinct [] values)
