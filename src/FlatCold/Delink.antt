-- ===== src/FlatCold/Delink.antt =====
-- The index without a slot that was in use.
use sqd_go.Base.{
  ℕ, ◌<◌, ◌≡◌, ◌≢◌, refl, sym, ◌∙◌, subst, true, false, inl, inr, Bool-cases, ◌==◌, ==_iff, arith,
  List, Option, some,
}
use sqd_go.FlatCold.{FlatCold, write, idx_unlink, bucket_of}
use sqd_go.FlatCold.Links.{
  has, Leads, remove, Leads-frame, has-remove, remove-Distinct, remove-absent, length-le,
}
use sqd_go.FlatCold.Linked.{Linked, IsLinked}
use sqd_go.FlatCold.Unlink.{unlink_loop-chain, write-ne}

-- A slot of another chain is not in this one.
pub apart :
    (f : FlatCold) (k : IsLinked f) (b c j : ℕ)
    → c ≢ b
    → has j (k.lists c) ≡ true
    → has j (k.lists b) ≡ false
apart f k b c j ne h = elim (Bool-cases (has j (k.lists b))) [
  | inl yes_ ↦ absurd (ne (sym (k.hashed c j h) ∙ k.hashed b j yes_))
  | inr no_ ↦ no_
]

pub idx_unlink-Linked :
    (f : FlatCold) (key : List ℕ) (slot : ℕ)
    → IsLinked f
    → slot < f.capacity
    → f.in_use slot ≡ true
    → f.slot_key slot ≡ key
    → (bs nx : ℕ → Option ℕ) × (idx_unlink f key slot ≡ some (record f { buckets = bs; next = nx }))
      × Linked f.capacity f.bucket_mask bs nx (write f.in_use slot false) f.slot_key
unfolding idx_unlink
idx_unlink-Linked f key slot k lt on at =
    let b = bucket_of key f.bucket_mask in
    let here : has slot (k.lists b) ≡ true =
      subst (λ c. has slot (k.lists (bucket_of c f.bucket_mask)) ≡ true) at
        (k.complete slot lt on) in
    let (bs, nx, done_, leads, other_heads, other_links) =
      unlink_loop-chain f.capacity f b slot (f.buckets b) (k.lists b) (k.leads b) refl
        (k.distinct b) here (length-le f.capacity (k.lists b) (k.distinct b) (k.below b))
        (k.below b) in
    let left : (c i : ℕ) → has i (remove slot (k.lists c)) ≡ true → has i (k.lists c) ≡ true =
      λ c i h. ground (arith, has-remove slot (k.lists c) i (k.distinct c)) in
    let left_ne : (c i : ℕ) → has i (remove slot (k.lists c)) ≡ true → i ≢ slot =
      λ c i h e. ground (arith, has-remove slot (k.lists c) i (k.distinct c)) in
    let on_ne : (i : ℕ) → write f.in_use slot false i ≡ true → i ≢ slot = λ i h e. ground arith in
    let still : (i : ℕ) → write f.in_use slot false i ≡ true → f.in_use i ≡ true =
      λ i h. sym (write-ne f.in_use slot false i (on_ne i h)) ∙ h in
    (
      bs,
      nx,
      done_,
      record {
        lists = λ c. remove slot (k.lists c);
        leads = λ c. elim (Bool-cases (c == b)) [
          | inl same ↦
              subst (λ d. Leads nx (bs d) (remove slot (k.lists d))) (sym ((==_iff c b).0 same))
                leads
          | inr other ↦
              let ne : c ≢ b = λ e. cc ((==_iff c b).1 e) in
              subst (λ p. Leads nx p (remove slot (k.lists c))) (sym (other_heads c ne))
                (subst (Leads nx (f.buckets c))
                  (sym (remove-absent slot (k.lists c) (apart f k c b slot (λ e. ne (sym e)) here)))
                  (Leads-frame (f.buckets c) (k.lists c)
                    (λ j h. other_links j (apart f k b c j ne h)) (k.leads c)))
        ];
        below = λ c i h. k.below c i (left c i h);
        used = λ c i h. write-ne f.in_use slot false i (left_ne c i h) ∙ k.used c i (left c i h);
        hashed = λ c i h. k.hashed c i (left c i h);
        complete = λ i below on'.
            let c = bucket_of (f.slot_key i) f.bucket_mask in
            has-remove slot (k.lists c) i (k.distinct c)
            ∙ ground (arith, k.complete i below (still i on'), on_ne i on');
        distinct = λ c. remove-Distinct slot (k.lists c) (k.distinct c);
        unique = λ i j li lj oi oj e. k.unique i j li lj (still i oi) (still j oj) e;
      },
    )
