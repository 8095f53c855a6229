-- ===== src/Protomath/UInt256/Columns.antt =====
-- `DivUint64Into` and `DivByInto` of a column, on all its rows.
use sqd_go.Base.{
  set-append, length-append_one, ℕ, ◌+◌, ◌≤◌, ◌<◌, ◌^◌, ◌≡◌, refl, sym, ap, ◌∙◌, false, ◌||◌,
  Option, some, List, [], ◌∷◌, ◌++◌, map, append_assoc, arith, ltb, ◌==◌, length, set, drop, ◌>>=◌,
  fun_ext,
}
use sqd_go.Protomath.{IsLimbs, Holiman, Laws}
use sqd_go.Protomath.UInt256.{
  UInt256, holiman, Column, into_loop, into, Uint64Divisor, div_uint64, div_by, new_uint64_divisor,
  div_uint64_into, div_by_into,
}
use sqd_go.Protomath.UInt256.Divide.{div_uint64-div_by}

-- Every row is made of words.
pub data Rows : Column → Type 0 where
  done : Rows []
  more : (v : UInt256) (vs : Column) → IsLimbs (holiman v) → Rows vs → Rows (v ∷ vs)

into_loop-map :
    {A : Type 0} (f : UInt256 → A × ℕ) (vs : Column) (pre rest : List A) (pre' rest' : List ℕ)
    → length pre ≡ length pre'
    → length vs ≤ length rest
    → length vs ≤ length rest'
    → into_loop (λ v. some (f v)) vs (length pre) (pre ++ rest) (pre' ++ rest')
      ≡ some (
        pre ++ (map (λ v. (f v).0) vs ++ drop (length vs) rest),
        pre' ++ (map (λ v. (f v).1) vs ++ drop (length vs) rest'),
      )
unfolding into_loop
into_loop-map f [] pre rest pre' rest' e l l' = refl
into_loop-map f (v ∷ vs) pre [] pre' rest' e l l' = absurd (omega arith)
into_loop-map f (v ∷ vs) pre (o ∷ rest) pre' [] e l l' = absurd (omega arith)
into_loop-map f (v ∷ vs) pre (o ∷ rest) pre' (o' ∷ rest') e l l' =
    let (q, r) = f v in
    let one = length-append_one pre q in
    let hyp =
      into_loop-map f vs (pre ++ (q ∷ [])) rest (pre' ++ (r ∷ [])) rest'
        (one ∙ omega arith ∙ sym (length-append_one pre' r)) (omega arith) (omega arith) in
    rw
      (
        set-append pre o rest q,
        ap (λ i. set (pre' ++ (o' ∷ rest')) i r) e,
        set-append pre' o' rest' r,
        sym one,
      )
      (hyp
        ∙ rw
            (
              append_assoc pre (q ∷ []) (map (λ v. (f v).0) vs ++ drop (length vs) rest),
              append_assoc pre' (r ∷ []) (map (λ v. (f v).1) vs ++ drop (length vs) rest'),
            )
            refl)

into_loop-same :
    (f g : UInt256 → Option (UInt256 × ℕ)) (vs : Column) (i : ℕ) (q : List UInt256) (r : List ℕ)
    → Rows vs
    → ((v : UInt256) → IsLimbs (holiman v) → f v ≡ g v)
    → into_loop f vs i q r ≡ into_loop g vs i q r
unfolding into_loop
into_loop-same f g [] i q r ws e = refl
into_loop-same f g (v ∷ vs) i q r (more _ _ w ws) e = rw (e v w) (
    ap (λ k. g v >>= k)
      (fun_ext (λ (a, b). into_loop-same f g vs (i + 1) (set q i a) (set r i b) ws e)))

module _ (h : Holiman) (laws : Laws h) where
  -- Where holiman/uint256 obeys `Laws` and the rows are made of words, `DivUint64Into` and `DivByInto`
  -- with the divisor made from the same uint64 that is not 0 do not panic on outputs that are long
  -- enough: they write the same quotients and remainders, those of
  -- `DivBy` on each row, and leave the rest of the outputs.
  pub div_uint64_into-div_by_into :
      (c : Column) (d : ℕ) (quotient : List UInt256) (remainder : List ℕ)
      → Rows c
      → 0 < d
      → d < 2 ^ 64
      → length c ≤ length quotient
      → length c ≤ length remainder
      → (divisor : Uint64Divisor) × (new_uint64_divisor h d ≡ some divisor)
        × (div_uint64_into c d quotient remainder ≡ div_by_into h c divisor quotient remainder)
        × (div_by_into h c divisor quotient remainder
            ≡ some (
              map (λ v. (div_by h v divisor).0) c ++ drop (length c) quotient,
              map (λ v. (div_by h v divisor).1) c ++ drop (length c) remainder,
            ))
  unfolding div_uint64_into div_by_into into new_uint64_divisor
  div_uint64_into-div_by_into c d quotient remainder ws p b l l' =
      let divisor : Uint64Divisor = record { value = d; holiman = h.set_uint64 d } in
      let some_d : (d == 0) ≡ false = ground arith in
      let made : new_uint64_divisor h d ≡ some divisor = rw some_d refl in
      let room : (ltb (length quotient) (length c) || ltb (length remainder) (length c)) ≡ false =
        ground arith in
      let row_same = λ (v : UInt256) (w : IsLimbs (holiman v)).
        let (e, made', same) = div_uint64-div_by h v d laws w p b in
        let one : e ≡ divisor = cc in same ∙ ap (λ t. some (div_by h v t)) one in
      (
        divisor,
        made,
        rw room (
            into_loop-same (λ v. div_uint64 v d) (λ v. some (div_by h v divisor)) c 0 quotient
              remainder ws row_same),
        rw room (into_loop-map (λ v. div_by h v divisor) c [] quotient [] remainder refl l l'),
      )
