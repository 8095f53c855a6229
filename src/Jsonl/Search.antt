-- ===== src/Jsonl/Search.antt =====
-- Searches and walks over texts put together from parts.
use sqd_go.Base.{
  ℕ, ◌+◌, ◌-◌, ◌*◌, ◌%◌, ◌^◌, ◌≡◌, refl, Bool, true, false, not, ◌&&◌, some, List, [], ◌∷◌, ◌++◌,
  ◌==◌, arith,
}
use sqd_go.Jsonl.{
  cut, strip, after_key, skip_blanks, brace_loop, digits_loop, is_digit, quote, open_brace,
  close_brace,
}

abbrev pub all : (ℕ → Bool) → List ℕ → Bool
all p [] = true
all p (x ∷ xs) = p x && all p xs

-- No `c` in the text.
abbrev pub Lacks : ℕ → List ℕ → Type 0
Lacks c xs = all (λ x. not (x == c)) xs ≡ true

pub all-append : (p : ℕ → Bool) (xs ys : List ℕ) → all p (xs ++ ys) ≡ (all p xs && all p ys)
all-append p [] ys = refl
all-append p (x ∷ xs) ys = ground (arith, all-append p xs ys)

all_mono :
    (p q : ℕ → Bool) (xs : List ℕ)
    → ((x : ℕ) → p x ≡ true → q x ≡ true)
    → all p xs ≡ true
    → all q xs ≡ true
all_mono p q [] h e = refl
all_mono p q (x ∷ xs) h e = ground (arith, h x, all_mono p q xs h)

pub digit-is_not : (c : ℕ) (xs : List ℕ) → is_digit c ≡ false → all is_digit xs ≡ true → Lacks c xs
digit-is_not c xs n e = all_mono is_digit (λ x. not (x == c)) xs (λ x d. ground arith) e

pub cut-append : (c : ℕ) (xs ys : List ℕ) → Lacks c xs → cut c (xs ++ (c ∷ ys)) ≡ some (xs, ys)
unfolding cut
cut-append c [] ys l = ground arith
cut-append c (x ∷ xs) ys l =
    let e : (x == c) ≡ false = ground arith in rw (e, cut-append c xs ys (ground arith))

-- A key that begins with a quote is not in a text without quotes.
pub after_key-skip :
    (ks xs ys : List ℕ)
    → Lacks quote xs
    → after_key (quote ∷ ks) (xs ++ ys) ≡ after_key (quote ∷ ks) ys
unfolding after_key strip
after_key-skip ks [] ys l = refl
after_key-skip ks (x ∷ xs) ys l =
    let e : (quote == x) ≡ false = ground arith in
    rw (after_key, e, after_key-skip ks xs ys (ground arith))

pub skip_blanks-digit : (d : ℕ) (xs : List ℕ) → is_digit d ≡ true → skip_blanks (d ∷ xs) ≡ d ∷ xs
unfolding skip_blanks
skip_blanks-digit d xs h = ground arith

-- Text without braces is copied.
pub brace_loop-append :
    (depth : ℕ) (xs ys zs : List ℕ)
    → Lacks open_brace xs
    → Lacks close_brace xs
    → brace_loop depth ys ≡ some zs
    → brace_loop depth (xs ++ ys) ≡ some (xs ++ zs)
unfolding brace_loop
brace_loop-append depth [] ys zs lo lc e = e
brace_loop-append depth (x ∷ xs) ys zs lo lc e =
    let o : (x == open_brace) ≡ false = ground arith in
    let c : (x == close_brace) ≡ false = ground arith in
    rw (o, c, brace_loop-append depth xs ys zs (ground arith) (ground arith) e)

-- The number that digits stand for, from the number so far.
abbrev pub decimal : ℕ → List ℕ → ℕ
decimal n [] = n
decimal n (x ∷ xs) = decimal (n * 10 + (x - b'0')) xs

abbrev pub no_digit : List ℕ → Bool
no_digit [] = true
no_digit (x ∷ xs) = not (is_digit x)

-- The loop reads the digits to their end, and wraps around as a uint64.
pub digits_loop-decimal :
    (n : ℕ) (xs ys : List ℕ)
    → all is_digit xs ≡ true
    → no_digit ys ≡ true
    → digits_loop (n % 2 ^ 64) (xs ++ ys) ≡ decimal n xs % 2 ^ 64
unfolding digits_loop
digits_loop-decimal n [] [] d e = refl
digits_loop-decimal n [] (y ∷ ys) d e = ground arith
digits_loop-decimal n (x ∷ xs) ys d e =
    let h : is_digit x ≡ true = ground arith in
    let m : (n % 2 ^ 64 * 10 + (x - b'0')) % 2 ^ 64 ≡ (n * 10 + (x - b'0')) % 2 ^ 64 =
      omega arith in
    rw (h, m) (digits_loop-decimal (n * 10 + (x - b'0')) xs ys (ground arith) e)
