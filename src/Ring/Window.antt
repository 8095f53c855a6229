-- ===== src/Ring/Window.antt =====
-- Which list of blocks a ring stands for, and how writes change it.
use sqd_go.Base.{
  ℕ, zero, suc, ◌+◌, ◌-◌, ◌%◌, ◌≤◌, ◌<◌, ◌≡◌, ◌≢◌, refl, sym, ap, ◌∙◌, Bool, true, some, List, [],
  ◌∷◌, ◌++◌, ◌&&◌, bit_and, inl, inr, arith, get_elem?, last?, set, set_last, drop, length,
  length-append, length-set_last, length-drop, get_elem?-set_self, get_elem?-set_ne, set_last-set,
  get_elem?-append_left, get_elem?-append_end, get_elem?-drop, last?-get_elem?, Bool-cases, ◌==◌,
  ==_iff,
}
use sqd_go.Chain.{BlockRef}
use sqd_go.Ring.{Ring, next, get_chain, chain_loop}

-- The mask is a remainder, checked at every index of the buffer.
masks : ℕ → Bool
masks zero = true
masks (suc n) = (bit_and (n + 1) 1023 == (n + 1) % 1024) && masks n

masks_sound : (n i : ℕ) → masks n ≡ true → i < n → bit_and (i + 1) 1023 ≡ (i + 1) % 1024
unfolding masks
masks_sound zero i h lt = absurd (omega arith)
masks_sound (suc n) i h lt = ground (arith, masks_sound n i)

masks_all : masks 1024 ≡ true
unfolding masks
masks_all = refl

pub next-eq : (i : ℕ) → i < 1024 → next i ≡ (i + 1) % 1024
unfolding next
next-eq i h = masks_sound 1024 i masks_all h

-- The blocks from place `t` on, in a circle.
abbrev pub Window : List BlockRef → ℕ → List BlockRef → Type 0
Window buffer t xs = (k : ℕ) → k < length xs → get_elem? buffer ((t + k) % 1024) ≡ get_elem? xs k

-- The ring holds the list, oldest first.
pub record Represents (r : Ring) (xs : List BlockRef) : Type 0 where
  pub size : length r.buffer ≡ 1024
  pub tail_in : r.tail < 1024
  pub counted : r.count ≡ length xs
  pub bounded : length xs ≤ 1024
  pub newest : 0 < length xs → r.head ≡ some ((r.tail + (length xs - 1)) % 1024)
  pub window : Window r.buffer r.tail xs

module _ (buffer : List BlockRef) (size : length buffer ≡ 1024) (t : ℕ) (t_in : t < 1024)
    (v : BlockRef) where
  pub Window-set_last :
      (xs : List BlockRef)
      → 0 < length xs
      → length xs ≤ 1024
      → Window buffer t xs
      → Window (set buffer ((t + (length xs - 1)) % 1024) v) t (set_last xs v)
  Window-set_last xs some_x fits w k lt = elim (Bool-cases (k == length xs - 1)) [
    | inl e ↦
        let e' : k ≡ length xs - 1 = (==_iff k (length xs - 1)).0 e in
        rw (e', set_last-set xs v)
          (get_elem?-set_self buffer ((t + (length xs - 1)) % 1024) v (omega arith)
            ∙ sym (get_elem?-set_self xs (length xs - 1) v (omega arith)))
    | inr e ↦
        let ne : k ≢ length xs - 1 = λ p. cc ((==_iff k (length xs - 1)).1 p) in
        let lt' : k < length xs = omega (arith, length-set_last xs v) in
        rw (set_last-set xs v) (
          get_elem?-set_ne buffer v (omega arith)
          ∙ w k lt'
          ∙ sym (get_elem?-set_ne xs v (λ p. ne (sym p))))
  ]

  pub Window-append :
      (xs : List BlockRef)
      → length xs < 1024
      → Window buffer t xs
      → Window (set buffer ((t + length xs) % 1024) v) t (xs ++ (v ∷ []))
  Window-append xs fits w k lt = elim (Bool-cases (k == length xs)) [
    | inl e ↦
        let e' : k ≡ length xs = (==_iff k (length xs)).0 e in
        rw e' (
          get_elem?-set_self buffer ((t + length xs) % 1024) v (omega arith)
          ∙ sym (get_elem?-append_end xs v))
    | inr e ↦
        let ne : k ≢ length xs = λ p. cc ((==_iff k (length xs)).1 p) in
        let lt' : k < length xs = omega (arith, length-append xs (v ∷ [])) in
        get_elem?-set_ne buffer v (omega arith)
        ∙ w k lt'
        ∙ sym (get_elem?-append_left xs (v ∷ []) k lt')
  ]

  pub Window-slide :
      (xs : List BlockRef)
      → length xs ≡ 1024
      → Window buffer t xs
      → Window (set buffer t v) ((t + 1) % 1024) (drop 1 (xs ++ (v ∷ [])))
  Window-slide xs full w k lt = elim (Bool-cases (k == 1023)) [
    | inl e ↦
        let e' : k ≡ 1023 = (==_iff k 1023).0 e in
        ap (get_elem? (set buffer t v)) (omega arith)
        ∙ get_elem?-set_self buffer t v (omega arith)
        ∙ sym (get_elem?-append_end xs v)
        ∙ ap (get_elem? (xs ++ (v ∷ []))) (omega arith)
        ∙ sym (get_elem?-drop 1 (xs ++ (v ∷ [])) k)
    | inr e ↦
        let ne : k ≢ 1023 = λ p. cc ((==_iff k 1023).1 p) in
        let lt' : k < 1023 =
          omega (arith, length-drop 1 (xs ++ (v ∷ [])), length-append xs (v ∷ [])) in
        get_elem?-set_ne buffer v (omega arith)
        ∙ ap (get_elem? buffer) (omega arith)
        ∙ w (suc k) (omega arith)
        ∙ sym (get_elem?-append_left xs (v ∷ []) (suc k) (omega arith))
        ∙ ap (get_elem? (xs ++ (v ∷ []))) (omega arith)
        ∙ sym (get_elem?-drop 1 (xs ++ (v ∷ [])) k)
  ]

pub Window-tail :
    (buffer : List BlockRef) (t : ℕ) (x : BlockRef) (xs : List BlockRef)
    → Window buffer t (x ∷ xs)
    → Window buffer ((t + 1) % 1024) xs
Window-tail buffer t x xs w k lt = ap (get_elem? buffer) (omega arith) ∙ w (suc k) (omega arith)

pub Window-head :
    (buffer : List BlockRef) (t : ℕ) (x : BlockRef) (xs : List BlockRef)
    → t < 1024
    → Window buffer t (x ∷ xs)
    → get_elem? buffer t ≡ some x
Window-head buffer t x xs h w = ap (get_elem? buffer) (omega arith) ∙ w 0 (omega arith)

-- The block at `r.head` is the last of the list.
pub Window-last :
    (buffer : List BlockRef) (t : ℕ) (xs : List BlockRef)
    → 0 < length xs
    → Window buffer t xs
    → get_elem? buffer ((t + (length xs - 1)) % 1024) ≡ last? xs
Window-last buffer t xs h w = w (length xs - 1) (omega arith) ∙ sym (last?-get_elem? xs)

chain_loop-Window :
    (buffer : List BlockRef) (t : ℕ) (xs : List BlockRef)
    → t < 1024
    → Window buffer t xs
    → chain_loop buffer t (length xs) ≡ some xs
unfolding chain_loop
chain_loop-Window buffer t [] h w = refl
chain_loop-Window buffer t (x ∷ xs) h w = rw (
  Window-head buffer t x xs h w,
  next-eq t h,
  chain_loop-Window buffer ((t + 1) % 1024) xs (omega arith) (Window-tail buffer t x xs w),
)

-- `GetChain` returns the list that the ring holds.
pub get_chain-Represents : {r : Ring} {xs : List BlockRef} → Represents r xs → get_chain r ≡ some xs
unfolding get_chain
get_chain-Represents {r} {xs} v =
    rw v.counted (chain_loop-Window r.buffer r.tail xs v.tail_in v.window)
