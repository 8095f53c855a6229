-- ===== src/FlatCold/Exact.antt =====
-- Sequences of calls that do not fill the store: nothing is evicted.
use sqd_go.Base.{
  ℕ, suc, ◌+◌, ◌*◌, ◌^◌, ◌≤◌, ◌<◌, ◌≡◌, ◌≢◌, refl, sym, ap, ◌∙◌, subst, inl, inr, Bool-cases,
  Option-cases, if◌then◌else◌, bytes_equal, bytes_equal_iff, arith, List, [], ◌∷◌, none, some,
  length,
}
use sqd_go.FlatCold.{FlatCold, new_flatcold}
use sqd_go.FlatCold.Calls.{put, get, del}
use sqd_go.FlatCold.Linked.{IsValid, Holds}
use sqd_go.FlatCold.Stored.{Put}
use sqd_go.FlatCold.Put.{put-Put}
use sqd_go.FlatCold.Laws.{Holds-one, Got, get-Got, Deleted, del-Deleted}
use sqd_go.FlatCold.Trace.{
  Call, putting, getting, deleting, run, Contents, assign, remembered, Fits, Sound, Sound-put,
  Sound-del, Fits-after, rounds-after, new_flatcold-Started,
}

-- How many of the calls put a value.
abbrev pub puts : List Call → ℕ
puts [] = 0
puts (putting k v ∷ calls) = suc (puts calls)
puts (getting k ∷ calls) = puts calls
puts (deleting k ∷ calls) = puts calls

-- The store holds all that the map has.
abbrev Whole : FlatCold → Contents → Type 0
Whole f m = (key v : List ℕ) → m key ≡ some v → Holds f key v

Whole-put :
    (f : FlatCold) (m : Contents) (k v : List ℕ)
    → Whole f m
    → f.size < f.capacity
    → (x : Put f k v (put f k v)) → Whole x.after (assign m k (some v))
Whole-put f m k v whole room x key w e = elim (Bool-cases (bytes_equal key k)) [
  | inl yes_ ↦
      let same : key ≡ k = (bytes_equal_iff key k).0 yes_ in
      let vw : v ≡ w = cc (ap (λ b. if b then some v else m key) (sym yes_), e) in
      subst (λ y. Holds x.after y w) (sym same) (subst (Holds x.after k) vw x.stored)
  | inr no_ ↦
      let was : Holds f key w = whole key w (ap (λ b. if b then some v else m key) (sym no_) ∙ e) in
      let ne : key ≢ k = λ h. cc ((bytes_equal_iff key k).1 h, no_) in
      elim x.kept [
        | inl all_ ↦ all_ key w ne was
        | inr (full, lost, some_left) ↦ absurd (omega (arith, full))
      ]
]

Whole-del :
    (f g : FlatCold) (m : Contents) (k : List ℕ)
    → Whole f m
    → ((other w : List ℕ) → (other ≢ k) × Holds f other w → Holds g other w)
    → Whole g (assign m k none)
Whole-del f g m k whole kept key w e = elim (Bool-cases (bytes_equal key k)) [
  | inl yes_ ↦ cc (ap (λ b. if b then none else m key) (sym yes_), e)
  | inr no_ ↦ kept key w (
    λ h. cc ((bytes_equal_iff key k).1 h, no_),
    whole key w (ap (λ b. if b then none else m key) (sym no_) ∙ e),
  )
]

-- A `get` on such a store answers as the map.
get-Whole :
    (f : FlatCold) (m : Contents) (k : List ℕ)
    → Sound f m
    → Whole f m
    → (x : Got f k (get f k)) → x.answer ≡ m k
get-Whole f m k sound whole x = elim (Option-cases x.answer) [
  | inr (v, some_) ↦ some_ ∙ sym (sound k v ((x.exact v).0 some_))
  | inl none_ ↦ elim (Option-cases (m k)) [
    | inl e ↦ none_ ∙ sym e
    | inr (v, e) ↦ cc ((x.exact v).1 (whole k v e))
  ]
]

run-exact :
    (calls : List Call) (f : FlatCold) (m : Contents)
    → IsValid f
    → Fits f.key_len f.val_len calls
    → f.hand + suc (length calls) * suc f.capacity < 2 ^ 64
    → f.size + puts calls ≤ f.capacity
    → Sound f m
    → Whole f m
    → (f' : FlatCold) × (run calls f ≡ some (remembered calls m, f'))
unfolding run
run-exact [] f m valid fits small room sound whole = (f, refl)
run-exact (putting k v ∷ calls) f m valid (fk, fv, fits) small room sound whole =
    let x : Put f k v (put f k v) = put-Put f k v valid fk fv (ground arith) in
    let (f', e) =
      run-exact calls x.after (assign m k (some v)) x.valid
        (Fits-after f x.after calls x.shape fits)
        (rounds-after f x.after (length calls) x.shape x.moved small)
        (omega (arith, x.grown, x.shape.capacity))
        (Sound-put f x.after m k v sound x.stored
          (λ w h. Holds-one x.after k v w x.valid x.stored h) x.nothing_new)
        (Whole-put f m k v whole (omega (arith, room)) x) in
    (f', rw (x.returns) e)
run-exact (getting k ∷ calls) f m valid fits small room sound whole =
    let x : Got f k (get f k) = get-Got f k valid in
    let (f', e) =
      run-exact calls x.after m x.valid (Fits-after f x.after calls x.shape fits)
        (rounds-after f x.after (length calls) x.shape (omega (arith, x.unmoved)) small)
        (omega (arith, x.not_grown, x.shape.capacity)) (λ key w h. sound key w ((x.kept key w).0 h))
        (λ key w h. (x.kept key w).1 (whole key w h)) in
    (f', rw (x.returns, e, get-Whole f m k sound whole x))
run-exact (deleting k ∷ calls) f m valid fits small room sound whole =
    let x : Deleted f k (del f k) = del-Deleted f k valid in
    let (f', e) =
      run-exact calls x.after (assign m k none) x.valid (Fits-after f x.after calls x.shape fits)
        (rounds-after f x.after (length calls) x.shape (omega (arith, x.unmoved)) small)
        (omega (arith, x.not_grown, x.shape.capacity))
        (Sound-del f x.after m k sound (λ other w h. (x.kept other w).0 h))
        (Whole-del f x.after m k whole (λ other w h. (x.kept other w).1 h)) in
    (f', rw (x.returns) e)

-- From a new store of at most 2^31 slots, with a key that is not empty put first, calls that keep the
-- strides of the first and do not let the hand wrap around, and no more puts than slots: every call
-- ends, and the answers of the `get`s are those of a map that forgets nothing.
pub new_flatcold-remembered :
    (capacity : ℕ) (k v : List ℕ) (calls : List Call)
    → 0 < length k
    → capacity ≤ 2 ^ 31
    → Fits (length k) (length v) calls
    → suc (suc (length calls)) * suc (suc capacity) < 2 ^ 64
    → suc (puts calls) ≤ capacity
    → (f' : FlatCold) × (run (putting k v ∷ calls) (new_flatcold capacity)
        ≡ some (remembered (putting k v ∷ calls) (λ key. none), f'))
new_flatcold-remembered capacity k v calls nonempty reached fits small room =
    let g = new_flatcold-Started capacity k v calls nonempty reached fits small in
    let (f', e) =
      run-exact (putting k v ∷ calls) g.store (λ key. none) g.valid g.fits g.small
        (omega (arith, g.size, g.roomy)) (λ key w h. absurd (g.empty key w h)) (λ key w h. cc) in
    (f', g.same ∙ e)
