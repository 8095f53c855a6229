-- ===== src/FlatCold/Trace.antt =====
-- Sequences of calls against a map of what was put: the mutex makes each call one step.
use native.Mathlib.Nat.{mul-le-mul_left}
use sqd_go.Base.{
  ℕ, bytes_equal, bytes_equal_iff, zero, suc, ◌+◌, ◌*◌, ◌^◌, ◌≤◌, ◌<◌, ◌≡◌, ◌≢◌, ◌⊎◌, refl, sym, ap,
  ◌∙◌, subst, true, false, inl, inr, Bool-cases, Option-cases, ◌==◌, if◌then◌else◌, arith, List, [],
  ◌∷◌, Option, none, some, length, ◌>>=◌,
}
use sqd_go.FlatCold.{FlatCold, init, init_capacity, new_flatcold}
use sqd_go.FlatCold.Calls.{put, get, del}
use sqd_go.FlatCold.Linked.{IsValid, Holds, SameShape}
use sqd_go.FlatCold.Stored.{Put}
use sqd_go.FlatCold.Put.{put-Put}
use sqd_go.FlatCold.Laws.{Holds-one, Got, get-Got, Deleted, del-Deleted}
use sqd_go.FlatCold.Start.{init-IsValid}

pub data Call : Type 0 where
  putting : List ℕ → List ℕ → Call
  getting : List ℕ → Call
  deleting : List ℕ → Call

-- The answers of the `get`s, and the store after the calls.
unfoldable pub run : List Call → FlatCold → Option (List (Option (List ℕ)) × FlatCold)
run [] f = some ([], f)
run (putting k v ∷ calls) f = do g ← put f k v; run calls g
run (getting k ∷ calls) f = do (a, g) ← get f k; (answers, h) ← run calls g; some (a ∷ answers, h)
run (deleting k ∷ calls) f = do (b, g) ← del f k; run calls g

abbrev pub Contents : Type 0
Contents = List ℕ → Option (List ℕ)

abbrev pub assign : Contents → List ℕ → Option (List ℕ) → Contents
assign m k o j = if bytes_equal j k then o else m j

-- What a map that forgets nothing answers.
abbrev pub remembered : List Call → Contents → List (Option (List ℕ))
remembered [] m = []
remembered (putting k v ∷ calls) m = remembered calls (assign m k (some v))
remembered (getting k ∷ calls) m = m k ∷ remembered calls m
remembered (deleting k ∷ calls) m = remembered calls (assign m k none)

-- Each answer is a miss or the one remembered.
abbrev Faithful : List (Option (List ℕ)) → List (Option (List ℕ)) → Type 0
Faithful [] [] = Unit {0}
Faithful [] (e ∷ es) = ⊥
Faithful (a ∷ answers) [] = ⊥
Faithful (a ∷ answers) (e ∷ es) = ((a ≡ none) ⊎ (a ≡ e)) × Faithful answers es

-- The keys and values put have the strides of the store.
abbrev pub Fits : ℕ → ℕ → List Call → Type 0
Fits kl vl [] = Unit {0}
Fits kl vl (putting k v ∷ calls) = (length k ≡ kl) × (length v ≡ vl) × Fits kl vl calls
Fits kl vl (getting k ∷ calls) = Fits kl vl calls
Fits kl vl (deleting k ∷ calls) = Fits kl vl calls

-- The store holds only what the map has.
abbrev pub Sound : FlatCold → Contents → Type 0
Sound f m = (key v : List ℕ) → Holds f key v → m key ≡ some v

pub Sound-put :
    (f g : FlatCold) (m : Contents) (k v : List ℕ)
    → Sound f m
    → Holds g k v
    → ((w : List ℕ) → Holds g k w → v ≡ w)
    → ((other w : List ℕ) → other ≢ k → Holds g other w → Holds f other w)
    → Sound g (assign m k (some v))
Sound-put f g m k v s own one old key w h = elim (Bool-cases (bytes_equal key k)) [
  | inl yes_ ↦
      rw yes_ (ap some (one w (subst (λ x. Holds g x w) ((bytes_equal_iff key k).0 yes_) h)))
  | inr no_ ↦ rw no_ (s key w (old key w (λ e. cc ((bytes_equal_iff key k).1 e, no_)) h))
]

pub Sound-del :
    (f g : FlatCold) (m : Contents) (k : List ℕ)
    → Sound f m
    → ((other w : List ℕ) → Holds g other w → (other ≢ k) × Holds f other w)
    → Sound g (assign m k none)
Sound-del f g m k s old key w h =
    let (ne, was) = old key w h in
    elim (Bool-cases (bytes_equal key k)) [
      | inl yes_ ↦ absurd (ne ((bytes_equal_iff key k).0 yes_))
      | inr no_ ↦ rw no_ (s key w was)
    ]

rounds-fit :
    (hand n c hand' : ℕ)
    → hand + (suc (suc n) * suc c) < 2 ^ 64
    → hand' ≤ hand + suc c
    → hand' + (suc n * suc c) < 2 ^ 64
rounds-fit hand n c hand' lt le = ground (arith)

pub Fits-after :
    (f g : FlatCold) (calls : List Call)
    → SameShape f g
    → Fits f.key_len f.val_len calls
    → Fits g.key_len g.val_len calls
Fits-after f g calls same fits =
    subst (λ n. Fits n g.val_len calls) (sym same.key_len)
      (subst (λ n. Fits f.key_len n calls) (sym same.val_len) fits)

pub rounds-after :
    (f g : FlatCold) (n : ℕ)
    → SameShape f g
    → g.hand ≤ f.hand + suc f.capacity
    → f.hand + (suc (suc n) * suc f.capacity) < 2 ^ 64
    → g.hand + (suc n * suc g.capacity) < 2 ^ 64
rounds-after f g n same le lt =
    subst (λ c. g.hand + (suc n * suc c) < 2 ^ 64) (sym same.capacity)
      (rounds-fit f.hand n f.capacity g.hand lt le)

-- The outcome of a sequence of calls: it ends, in a valid store, with faithful answers.
pub record Ran (calls : List Call) (m : Contents)
    (result : Option (List (Option (List ℕ)) × FlatCold)) : Type 0 where
  pub answers : List (Option (List ℕ))
  pub after : FlatCold
  pub returns : result ≡ some (answers, after)
  pub valid : IsValid after
  pub faithful : Faithful answers (remembered calls m)

-- On a valid store that holds only what the map has, and whose hand does not wrap around in a round
-- and a slot for each call.
pub run-Ran :
    (calls : List Call) (f : FlatCold) (m : Contents)
    → IsValid f
    → Fits f.key_len f.val_len calls
    → f.hand + (suc (length calls) * suc f.capacity) < 2 ^ 64
    → Sound f m
    → Ran calls m (run calls f)
unfolding run
run-Ran [] f m valid fits small sound = record {
  answers = [];
  after = f;
  returns = refl;
  valid = valid;
  faithful = tt;
}
run-Ran (putting k v ∷ calls) f m valid (fk, fv, fits) small sound =
    let x : Put f k v (put f k v) = put-Put f k v valid fk fv (ground arith) in
    let y : Ran calls (assign m k (some v)) (run calls x.after) =
      run-Ran calls x.after (assign m k (some v)) x.valid (Fits-after f x.after calls x.shape fits)
        (rounds-after f x.after (length calls) x.shape x.moved small)
        (Sound-put f x.after m k v sound x.stored
          (λ w h. Holds-one x.after k v w x.valid x.stored h) x.nothing_new) in
    record {
      answers = y.answers;
      after = y.after;
      returns = rw (x.returns) y.returns;
      valid = y.valid;
      faithful = y.faithful;
    }
run-Ran (getting k ∷ calls) f m valid fits small sound =
    let x : Got f k (get f k) = get-Got f k valid in
    let y : Ran calls m (run calls x.after) =
      run-Ran calls x.after m x.valid (Fits-after f x.after calls x.shape fits)
        (rounds-after f x.after (length calls) x.shape (omega (arith, x.unmoved)) small)
        (λ key w h. sound key w ((x.kept key w).0 h)) in
    record {
      answers = x.answer ∷ y.answers;
      after = y.after;
      returns = rw (x.returns, y.returns);
      valid = y.valid;
      faithful = (
        elim (Option-cases x.answer) [
          | inl none_ ↦ inl none_
          | inr (v, some_) ↦ inr (some_ ∙ sym (sound k v ((x.exact v).0 some_)))
        ],
        y.faithful,
      );
    }
run-Ran (deleting k ∷ calls) f m valid fits small sound =
    let x : Deleted f k (del f k) = del-Deleted f k valid in
    let y : Ran calls (assign m k none) (run calls x.after) =
      run-Ran calls x.after (assign m k none) x.valid (Fits-after f x.after calls x.shape fits)
        (rounds-after f x.after (length calls) x.shape (omega (arith, x.unmoved)) small)
        (Sound-del f x.after m k sound (λ other w h. (x.kept other w).0 h)) in
    record {
      answers = y.answers;
      after = y.after;
      returns = rw (x.returns) y.returns;
      valid = y.valid;
      faithful = y.faithful;
    }

-- The first put into a store without strides is a put into the store that `init` allocates.
first_put :
    (f g : FlatCold) (k v : List ℕ)
    → f.key_len ≡ 0
    → init f (length k) (length v) ≡ some g
    → 0 < g.key_len
    → put f k v ≡ put g k v
unfolding put
first_put f g k v bare made positive =
    let e : (f.key_len == 0) ≡ true = ground (arith, bare) in
    let d : (g.key_len == 0) ≡ false = ground (arith, positive) in rw (e, made, d)

new_capacity :
    (capacity kl vl : ℕ)
    → init_capacity (new_flatcold capacity) kl vl ≡ (if capacity == 0 then 1 else capacity)
unfolding init_capacity new_flatcold
new_capacity zero kl vl = refl
new_capacity (suc c) kl vl = ground arith

fewer_slots : (n c d : ℕ) → c ≤ suc d → n * suc (suc d) < 2 ^ 64 → 0 + n * suc c < 2 ^ 64
fewer_slots n c d le lt =
    omega (arith, mul-le-mul_left {m = suc c} {n = suc (suc d)} n (omega arith))

-- The store that the first put of a run allocates.
pub record Started (capacity : ℕ) (k v : List ℕ) (calls : List Call) : Type 0 where
  pub store : FlatCold
  pub same : run (putting k v ∷ calls) (new_flatcold capacity) ≡ run (putting k v ∷ calls) store
  pub valid : IsValid store
  pub fits : Fits store.key_len store.val_len (putting k v ∷ calls)
  pub small : store.hand + suc (suc (length calls)) * suc store.capacity < 2 ^ 64
  pub roomy : capacity ≤ store.capacity
  pub size : store.size ≡ 0
  pub empty : (key w : List ℕ) → ¬ Holds store key w

pub new_flatcold-Started :
    (capacity : ℕ) (k v : List ℕ) (calls : List Call)
    → 0 < length k
    → capacity ≤ 2 ^ 31
    → Fits (length k) (length v) calls
    → suc (suc (length calls)) * suc (suc capacity) < 2 ^ 64
    → Started capacity k v calls
unfolding run new_flatcold
new_flatcold-Started capacity k v calls nonempty reached fits small =
    let f : FlatCold = new_flatcold capacity in
    let slots = new_capacity capacity (length k) (length v) in
    let (g, made, valid, kl, vl, cap, hand, size, empty) =
      init-IsValid f (length k) (length v) refl nonempty (ground (arith, slots))
        (ground (arith, slots)) in
    let first : put f k v ≡ put g k v = first_put f g k v refl made (omega (arith, kl)) in
    record {
      store = g;
      same = rw first;
      valid = valid;
      fits = (
        sym kl,
        sym vl,
        subst (λ n. Fits n g.val_len calls) (sym kl)
            (subst (λ n. Fits (length k) n calls) (sym vl) fits),
      );
      small =
          subst (λ n. n + (suc (suc (length calls)) * suc g.capacity) < 2 ^ 64) (sym hand)
            (fewer_slots (suc (suc (length calls))) g.capacity capacity (ground (arith, slots, cap))
              small);
      roomy = ground (arith, slots, cap);
      size = size;
      empty = empty;
    }

-- From a new store of at most 2^31 slots, with a key that is not empty put first, and calls that keep
-- the strides of the first and do not let the hand wrap around: every call ends, and every `get` misses
-- or answers the value that was put last for its key and not deleted since.
pub new_flatcold-Ran :
    (capacity : ℕ) (k v : List ℕ) (calls : List Call)
    → 0 < length k
    → capacity ≤ 2 ^ 31
    → Fits (length k) (length v) calls
    → suc (suc (length calls)) * suc (suc capacity) < 2 ^ 64
    → Ran (putting k v ∷ calls) (λ key. none) (run (putting k v ∷ calls) (new_flatcold capacity))
new_flatcold-Ran capacity k v calls nonempty reached fits small =
    let g = new_flatcold-Started capacity k v calls nonempty reached fits small in
    let x : Ran (putting k v ∷ calls) (λ key. none) (run (putting k v ∷ calls) g.store) =
      run-Ran (putting k v ∷ calls) g.store (λ key. none) g.valid g.fits g.small
        (λ key w h. absurd (g.empty key w h)) in
    subst (Ran (putting k v ∷ calls) (λ key. none)) (sym g.same) x
