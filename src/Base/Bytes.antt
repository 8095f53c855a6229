-- ===== src/Base/Bytes.antt =====
-- Equality of texts, which are lists of bytes.
use Prim.Native.Nat.{ℕ}
use mathlib.Core.Path.{◌≡◌, refl}
use mathlib.Core.Logic.{◌↔◌}
use mathlib.Core.Bool.{Bool, true, false}
use mathlib.Core.List.{List, [], ◌∷◌}
use native.Mathlib.Omega.{arith}
use sqd_go.Base.Tests.{◌==◌, if◌then◌else◌}

-- `bytes.Equal`
unfoldable pub bytes_equal : List ℕ → List ℕ → Bool
bytes_equal [] [] = true
bytes_equal [] (b ∷ bs) = false
bytes_equal (a ∷ xs) [] = false
bytes_equal (a ∷ xs) (b ∷ bs) = if a == b then bytes_equal xs bs else false

pub bytes_equal_iff : (xs ys : List ℕ) → (bytes_equal xs ys ≡ true) ↔ (xs ≡ ys)
unfolding bytes_equal
bytes_equal_iff [] [] = (λ h. refl, λ h. refl)
bytes_equal_iff [] (y ∷ ys) = (λ h. cc, λ h. cc)
bytes_equal_iff (x ∷ xs) [] = (λ h. cc, λ h. cc)
bytes_equal_iff (x ∷ xs) (y ∷ ys) = (
  λ h.
      let e : x ≡ y = ground arith in
      let es : xs ≡ ys = (bytes_equal_iff xs ys).0 (ground arith) in cc,
  λ h.
      let e : x ≡ y = cc in
      let es : xs ≡ ys = cc in ground (arith, e, (bytes_equal_iff xs ys).1 es),
)
