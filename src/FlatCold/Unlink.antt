-- ===== src/FlatCold/Unlink.antt =====
-- A slot taken out of its chain, and the index without it.
use sqd_go.Base.{
  ℕ, zero, suc, ◌≤◌, ◌<◌, ◌≡◌, ◌≢◌, refl, sym, ap, ◌∙◌, subst, true, false, inl, inr, Bool-cases,
  ◌==◌, ==_iff, arith, List, [], ◌∷◌, Option, none, some, length, ltb, lt→ltb,
}
use sqd_go.FlatCold.{FlatCold, write, unlink_loop}
use sqd_go.FlatCold.Links.{
  has, Distinct, Leads, remove, Leads-frame, Leads-remove_head, Leads-remove_tail,
}

pub write-ne {ℓ} : {A : Type ℓ} (a : ℕ → A) (i : ℕ) (v : A) (j : ℕ) → j ≢ i → write a i v j ≡ a j
write-ne a i v j ne = elim (Bool-cases (j == i)) [
  | inl here ↦ absurd (ne ((==_iff j i).0 here))
  | inr there ↦ rw there
]

pub write_self {ℓ} : {A : Type ℓ} (a : ℕ → A) (i : ℕ) (v : A) → write a i v i ≡ v
write_self a i v = rw (==_iff i i).1 refl

has-ne : (j z : ℕ) (zs : List ℕ) → has j zs ≡ true → has z zs ≡ false → j ≢ z
has-ne j z zs h no_ e = cc (ap (λ k. has k zs) e, h, no_)

-- Past the head of the chain: `q` is linked around the slot.
unlink_loop-past :
    (fuel : ℕ) (f : FlatCold) (b slot q : ℕ) (at : Option ℕ) (zs : List ℕ)
    → Leads f.next at zs
    → f.next q ≡ at
    → has q zs ≡ false
    → Distinct zs
    → has slot zs ≡ true
    → length zs ≤ fuel
    → ((i : ℕ) → has i zs ≡ true → i < f.capacity)
    → (nx : ℕ → Option ℕ) × (unlink_loop fuel f b slot (some q) at ≡ some (record f { next = nx }))
      × Leads nx (nx q) (remove slot zs)
      × ((j : ℕ) → j ≢ q → has j zs ≡ false → nx j ≡ f.next j)
unfolding unlink_loop
unlink_loop-past fuel f b slot q at [] l e out d in_zs le below = cc
unlink_loop-past fuel f b slot q none (z ∷ zs) (p, l) e out d in_zs le below = cc
unlink_loop-past zero f b slot q (some i) (z ∷ zs) l e out d in_zs le below = absurd (omega arith)
unlink_loop-past (suc fuel) f b slot q (some i) (z ∷ zs) (p, l) e out (no_, d) in_zs le below =
    let same : i ≡ z = cc in
    let in_range : ltb i f.capacity ≡ true =
      ap (λ k. ltb k f.capacity) same ∙ lt→ltb z f.capacity (below z (ground arith)) in
    elim (Bool-cases (i == slot)) [
      | inl here ↦
          let at_slot : z ≡ slot = sym same ∙ (==_iff i slot).0 here in
          let qz : q ≢ z = λ h. ground arith in
          let nx : ℕ → Option ℕ = write (write f.next q (f.next i)) i none in
          let kept : (j : ℕ) → j ≢ q → j ≢ z → nx j ≡ f.next j = λ j jq jz.
            write-ne (write f.next q (f.next i)) i none j (λ h. jz (h ∙ same))
            ∙ write-ne f.next q (f.next i) j jq in
          let past : f.next z ≡ nx q = sym (
            write-ne (write f.next q (f.next i)) i none q (λ h. qz (h ∙ same))
            ∙ write_self f.next q (f.next i)
            ∙ ap f.next same) in
          (
            nx,
            rw (in_range, here),
            Leads-remove_head nx (nx q) slot z zs at_slot (
                subst (λ k. Leads nx k zs) past
                  (Leads-frame (f.next z) zs
                    (λ j h. kept j (has-ne j q zs h (ground arith)) (has-ne j z zs h no_)) l)),
            λ j jq h. kept j jq (λ jz. ground arith),
          )
      | inr there ↦
          let zi : z ≢ slot = λ h. cc ((==_iff i slot).1 (same ∙ h)) in
          let (nx, done_, leads, kept) =
            unlink_loop-past fuel f b slot i (f.next i) zs
              (subst (λ k. Leads f.next (f.next k) zs) (sym same) l) refl
              (ap (λ k. has k zs) same ∙ no_) d (ground arith) (omega arith)
              (λ j h. below j (ground arith)) in
          (
            nx,
            rw (in_range, there, done_),
            Leads-remove_tail nx (nx q) slot z zs zi
                (kept q (λ h. ground arith) (ground arith) ∙ e ∙ p)
                (subst (λ k. Leads nx (nx k) (remove slot zs)) same leads),
            λ j jq h. kept j (λ ji. ground arith) (ground arith),
          )
    ]

-- From the head of the chain.
pub unlink_loop-chain :
    (fuel : ℕ) (f : FlatCold) (b slot : ℕ) (at : Option ℕ) (zs : List ℕ)
    → Leads f.next at zs
    → f.buckets b ≡ at
    → Distinct zs
    → has slot zs ≡ true
    → length zs ≤ fuel
    → ((i : ℕ) → has i zs ≡ true → i < f.capacity)
    → (bs nx : ℕ → Option ℕ) × (unlink_loop fuel f b slot none at
        ≡ some (record f { buckets = bs; next = nx }))
      × Leads nx (bs b) (remove slot zs)
      × ((c : ℕ) → c ≢ b → bs c ≡ f.buckets c)
      × ((j : ℕ) → has j zs ≡ false → nx j ≡ f.next j)
unfolding unlink_loop
unlink_loop-chain fuel f b slot at [] l e d in_zs le below = cc
unlink_loop-chain fuel f b slot none (z ∷ zs) (p, l) e d in_zs le below = cc
unlink_loop-chain zero f b slot (some i) (z ∷ zs) l e d in_zs le below = absurd (omega arith)
unlink_loop-chain (suc fuel) f b slot (some i) (z ∷ zs) (p, l) e (no_, d) in_zs le below =
    let same : i ≡ z = cc in
    let in_range : ltb i f.capacity ≡ true =
      ap (λ k. ltb k f.capacity) same ∙ lt→ltb z f.capacity (below z (ground arith)) in
    elim (Bool-cases (i == slot)) [
      | inl here ↦
          let at_slot : z ≡ slot = sym same ∙ (==_iff i slot).0 here in
          let bs : ℕ → Option ℕ = write f.buckets b (f.next i) in
          let nx : ℕ → Option ℕ = write f.next i none in
          let kept : (j : ℕ) → j ≢ z → nx j ≡ f.next j =
            λ j jz. write-ne f.next i none j (λ h. jz (h ∙ same)) in
          (
            bs,
            nx,
            rw (in_range, here),
            Leads-remove_head nx (bs b) slot z zs at_slot (
                subst (λ k. Leads nx k zs)
                  (sym (write_self f.buckets b (f.next i) ∙ ap f.next same))
                  (Leads-frame (f.next z) zs (λ j h. kept j (has-ne j z zs h no_)) l)),
            λ c cb. write-ne f.buckets b (f.next i) c cb,
            λ j h. kept j (λ jz. ground arith),
          )
      | inr there ↦
          let zi : z ≢ slot = λ h. cc ((==_iff i slot).1 (same ∙ h)) in
          let (nx, done_, leads, kept) =
            unlink_loop-past fuel f b slot i (f.next i) zs
              (subst (λ k. Leads f.next (f.next k) zs) (sym same) l) refl
              (ap (λ k. has k zs) same ∙ no_) d (ground arith) (omega arith)
              (λ j h. below j (ground arith)) in
          (
            f.buckets,
            nx,
            rw (in_range, there, done_),
            Leads-remove_tail nx (f.buckets b) slot z zs zi (e ∙ p)
                (subst (λ k. Leads nx (nx k) (remove slot zs)) same leads),
            λ c cb. refl,
            λ j h. kept j (λ ji. ground arith) (ground arith),
          )
    ]
