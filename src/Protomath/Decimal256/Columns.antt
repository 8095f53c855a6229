-- ===== src/Protomath/Decimal256/Columns.antt =====
-- `AddInto`, `SubInto`, `MulInto`, `DivInto` and `ModInto` of a column, on all its rows.
use sqd_go.Base.{
  set-append, length-append_one, ◌≤◌, ◌≡◌, refl, sym, ap, ◌∙◌, Bool, true, false, ◌&&◌, some, none,
  [], ◌∷◌, ◌++◌, append_assoc, arith, ltb, ◌==◌, length, drop,
}
use sqd_go.Protomath.Decimal256.{Decimal256, Column, into_loop, into}

-- The rows of an output: one after the other, until a column ends.
pub results : (Decimal256 → Decimal256 → Decimal256 × Bool) → Column → Column → Column
results step [] ys = []
results step (x ∷ xs) [] = []
results step (x ∷ xs) (y ∷ ys) = (step x y).0 ∷ results step xs ys

pub all_ok : (Decimal256 → Decimal256 → Decimal256 × Bool) → Column → Column → Bool
all_ok step [] ys = true
all_ok step (x ∷ xs) [] = true
all_ok step (x ∷ xs) (y ∷ ys) = (step x y).1 && all_ok step xs ys

and_assoc : (a b c : Bool) → (a && b) && c ≡ a && (b && c)
and_assoc true b c = refl
and_assoc false b c = refl

and-true : (a : Bool) → a && true ≡ a
and-true true = refl
and-true false = refl

module _ (step : Decimal256 → Decimal256 → Decimal256 × Bool) where
  into_loop-results :
      (xs ys pre rest : Column) (so_far : Bool)
      → length xs ≡ length ys
      → length xs ≤ length rest
      → into_loop step xs ys (length pre) (pre ++ rest) so_far
        ≡ (pre ++ (results step xs ys ++ drop (length xs) rest), so_far && all_ok step xs ys)
  unfolding into_loop results all_ok
  into_loop-results [] ys pre rest so_far e l = rw (and-true so_far) refl
  into_loop-results (x ∷ xs) [] pre rest so_far e l = absurd (omega arith)
  into_loop-results (x ∷ xs) (y ∷ ys) pre [] so_far e l = absurd (omega arith)
  into_loop-results (x ∷ xs) (y ∷ ys) pre (o ∷ rest) so_far e l =
      let (z, row_ok) = step x y in
      let hyp =
        into_loop-results xs ys (pre ++ (z ∷ [])) rest (so_far && row_ok) (omega arith)
          (omega arith) in
      rw (set-append pre o rest z, sym (length-append_one pre z))
        (hyp
          ∙ rw
              (
                append_assoc pre (z ∷ []) (results step xs ys ++ drop (length xs) rest),
                and_assoc so_far row_ok (all_ok step xs ys),
              )
              refl)

  -- On columns of one length and an output at least as long, a column operation does not panic: every row of the
  -- output is the operation's result on the two rows, the rest of the output stays, and the flag says
  -- whether every row was within range. On any other lengths it panics.
  pub into-results :
      (c other out : Column)
      → ((length c ≡ length other) × (length c ≤ length out)
          → into step c other out
            ≡ some (results step c other ++ drop (length c) out, all_ok step c other))
        × (¬ ((length c ≡ length other) × (length c ≤ length out)) → into step c other out ≡ none)
  unfolding into
  into-results c other out = (
    λ ((e, l) : (length c ≡ length other) × (length c ≤ length out)).
        let same : (length c == length other) ≡ true = ground arith in
        let room : ltb (length out) (length c) ≡ false = ground arith in
        rw (same, room) (ap some (into_loop-results c other [] out true e l)),
    λ (n : ¬ ((length c ≡ length other) × (length c ≤ length out))). ground arith,
  )
