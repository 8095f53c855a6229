-- ===== src/Jsonl/Pages.antt =====
-- The loop over a page is a pass over its lines, in order, up to the first error.
use sqd_go.Base.{
  ℕ, zero, suc, ◌%◌, ◌^◌, ◌≤◌, ◌<◌, ◌≡◌, ◌⊎◌, refl, sym, ap, ◌∙◌, true, false, inl, inr, Bool-cases,
  Option, none, some, List, [], ◌∷◌, ◌++◌, ◌==◌, if◌then◌else◌, arith, length,
}
use sqd_go.Jsonl.{
  cut, newline, next_line, ScanError, refused, scan_line, go_on, gathered, scan_loop,
  scan_headers_with_line, scan_block_ref_header, header_object, after_colon, after_key, is_digit,
  quote, open_brace, close_brace,
}
use sqd_go.Jsonl.Search.{all, Lacks, decimal}
use sqd_go.Jsonl.Headers.{line_text, scan_block_ref_header-text}

abbrev onto_first : ℕ → List (List ℕ) → List (List ℕ)
onto_first x [] = (x ∷ []) ∷ []
onto_first x (l ∷ ls) = (x ∷ l) ∷ ls

-- The lines of a page; the last may lack its newline.
abbrev pub lines : List ℕ → List (List ℕ)
lines [] = []
lines (x ∷ xs) = if x == newline then [] ∷ lines xs else onto_first x (lines xs)

abbrev one_line : List ℕ → List (List ℕ)
one_line [] = []
one_line (x ∷ xs) = (x ∷ xs) ∷ []

onto-one_line : (x : ℕ) (xs : List ℕ) → onto_first x (one_line xs) ≡ (x ∷ xs) ∷ []
onto-one_line x [] = refl
onto-one_line x (y ∷ xs) = refl

cut-lines :
    (xs : List ℕ)
    → ((cut newline xs ≡ none) × (lines xs ≡ one_line xs))
      ⊎ ((a b : List ℕ) × (cut newline xs ≡ some (a, b))
          × (lines xs ≡ a ∷ lines b)
          × (length b < length xs))
unfolding cut
cut-lines [] = inl (refl, refl)
cut-lines (x ∷ xs) = elim (Bool-cases (x == newline)) [
  | inl yes_ ↦ inr ([], xs, rw yes_, rw yes_, omega arith)
  | inr no_ ↦ elim (cut-lines xs) [
    | inl (e, l) ↦ inl (rw (no_, e), rw (no_, l) (onto-one_line x xs))
    | inr (a, b, e, l, lt) ↦ inr (x ∷ a, b, rw (no_, e), rw (no_, l), omega (arith, lt))
  ]
]

-- The next line is the first, and the rest is shorter.
next_line-lines :
    (x : ℕ) (xs : List ℕ)
    → (l r : List ℕ) × (next_line (x ∷ xs) ≡ (l, r))
      × (lines (x ∷ xs) ≡ l ∷ lines r)
      × (length r ≤ length xs)
unfolding next_line
next_line-lines x xs = elim (cut-lines (x ∷ xs)) [
  | inl (e, l) ↦ (x ∷ xs, [], rw (next_line, e), l, omega arith)
  | inr (a, b, e, l, lt) ↦ (a, b, rw (next_line, e), l, omega (arith, lt))
]

module _ {S E : Type 0} (on_block : S → ℕ → ℕ → List ℕ → List ℕ → S × Option E) where
  -- The lines one after the other, the empty ones passed over.
  abbrev pub scan_each : S → List (List ℕ) → S × Option (ScanError E)
  scan_each s [] = (s, none)
  scan_each s ([] ∷ ls) = scan_each s ls
  scan_each s ((x ∷ xs) ∷ ls) =
      let (s', err) = scan_line on_block s (x ∷ xs) in
      elim err [ none ↦ scan_each s' ls | some e ↦ (s', some e) ]

  -- What the pass does after a line.
  abbrev pub after_line : S × Option (ScanError E) → List (List ℕ) → S × Option (ScanError E)
  after_line o ls = elim o.1 [ none ↦ scan_each o.0 ls | some e ↦ (o.0, some e) ]

  scan_loop-each :
      (fuel : ℕ) (s : S) (xs : List ℕ)
      → length xs ≤ fuel
      → scan_loop on_block fuel s xs ≡ some (scan_each s (lines xs))
  unfolding scan_loop
  scan_loop-each fuel s [] le = refl
  scan_loop-each zero s (x ∷ xs) le = absurd (omega arith)
  scan_loop-each (suc fuel) s (x ∷ xs) le =
      let (l, r, cut_, lines_, shorter) = next_line-lines x xs in
      ap (λ parts. advance parts.0 parts.1) cut_
      ∙ one_step l r (scan_line on_block s l) refl (λ s'. scan_loop-each fuel s' r (omega arith))
      ∙ ap (λ ls. some (scan_each s ls)) (sym lines_)
    where
      advance : List ℕ → List ℕ → Option (S × Option (ScanError E))
      advance l r =
          go_on l (scan_line on_block s l)
            (scan_loop on_block fuel (gathered l s (scan_line on_block s l)) r)

      one_step :
          (l r : List ℕ) (o : S × Option (ScanError E))
          → scan_line on_block s l ≡ o
          → ((s' : S) → scan_loop on_block fuel s' r ≡ some (scan_each s' (lines r)))
          → go_on l o (scan_loop on_block fuel (gathered l s o) r)
            ≡ some (scan_each s (l ∷ lines r))
      one_step [] r o e ih = ih s
      one_step (y ∷ ys) r (s', none) e ih = ih s' ∙ ap (λ o. some (after_line o (lines r))) (sym e)
      one_step (y ∷ ys) r (s', some err) e ih = ap (λ o. some (after_line o (lines r))) (sym e)

  -- The scan of a page ends, and is the pass over its lines: the callback gets the lines that are not
  -- empty, in order, up to the first that has no header or that it refuses.
  pub scan_headers-each :
      (s : S) (page : List ℕ)
      → scan_headers_with_line on_block s page ≡ some (scan_each s (lines page))
  unfolding scan_headers_with_line
  scan_headers-each s page = scan_loop-each (length page) s page (omega arith)

-- A printed header line.
pub record HeaderLine : Type 0 where
  pub pre : List ℕ
  pub n : ℕ
  pub ns : List ℕ
  pub hs : List ℕ
  pub t : ℕ
  pub ts : List ℕ
  pub rest : List ℕ

abbrev pub text : HeaderLine → List ℕ
text h = line_text h.pre (h.n ∷ h.ns) h.hs (h.t ∷ h.ts) h.rest

-- Numbers of digits, a hash without quotes and braces, and no newline in the line.
pub record IsPrinted (h : HeaderLine) : Type 0 where
  pub unquoted : Lacks quote h.pre
  pub number_digits : all is_digit (h.n ∷ h.ns) ≡ true
  pub timestamp_digits : all is_digit (h.t ∷ h.ts) ≡ true
  pub hash_unquoted : Lacks quote h.hs
  pub hash_unopened : Lacks open_brace h.hs
  pub hash_unclosed : Lacks close_brace h.hs
  pub one_line : Lacks newline (text h)

abbrev ArePrinted : List HeaderLine → Type 0
ArePrinted [] = Unit {0}
ArePrinted (h ∷ hs) = IsPrinted h × ArePrinted hs

abbrev pub page : List HeaderLine → List ℕ
page [] = []
page (h ∷ hs) = text h ++ (newline ∷ page hs)

lines-append : (xs ys : List ℕ) → Lacks newline xs → lines (xs ++ (newline ∷ ys)) ≡ xs ∷ lines ys
lines-append [] ys l = refl
lines-append (x ∷ xs) ys l =
    let e : (x == newline) ≡ false = ground arith in rw (e, lines-append xs ys (ground arith))

module _ {S E : Type 0} (on_block : S → ℕ → ℕ → List ℕ → List ℕ → S × Option E) where
  -- The callback on each header in order, up to the first that it refuses.
  abbrev pub deliver : S → List HeaderLine → S × Option (ScanError E)
  deliver s [] = (s, none)
  deliver s (h ∷ hs) =
      let (s', err) =
        on_block s (decimal 0 (h.n ∷ h.ns) % 2 ^ 64) (decimal 0 (h.t ∷ h.ts) % 2 ^ 64) (b'0' ∷ h.hs)
          (text h) in
      elim err [ none ↦ deliver s' hs | some e ↦ (s', some (refused e)) ]

  abbrev refusal : Option E → Option (ScanError E)
  refusal err = elim err [ none ↦ none | some e ↦ some (refused e) ]

  -- What the pass does after the callback.
  abbrev after_callback : S × Option E → List (List ℕ) → S × Option (ScanError E)
  after_callback o ls = elim o.1 [
    | none ↦ scan_each on_block o.0 ls
    | some e ↦ (o.0, some (refused e))
  ]

  scan_each-line :
      (s : S) (l : List ℕ) (ls : List (List ℕ)) (number timestamp : ℕ) (hash : List ℕ)
      → scan_block_ref_header l ≡ some (number, timestamp, hash)
      → scan_each on_block s (l ∷ ls) ≡ after_callback (on_block s number timestamp hash l) ls
  unfolding scan_block_ref_header header_object after_colon after_key scan_line
  scan_each-line s [] ls number timestamp hash e = cc
  scan_each-line s (x ∷ xs) ls number timestamp hash e =
      let o = on_block s number timestamp hash (x ∷ xs) in
      let read : scan_line on_block s (x ∷ xs) ≡ (o.0, refusal o.1) = rw (scan_line, e) in
      ap (λ r. after_line on_block r ls) read ∙ same_after o
    where
      same_after :
          (o : S × Option E) → after_line on_block (o.0, refusal o.1) ls ≡ after_callback o ls
      same_after (s', none) = refl
      same_after (s', some err) = refl

  scan_each-deliver :
      (s : S) (hs : List HeaderLine)
      → ArePrinted hs
      → scan_each on_block s (lines (page hs)) ≡ deliver s hs
  scan_each-deliver s [] p = refl
  scan_each-deliver s (h ∷ hs) (p, ps) =
      let number = decimal 0 (h.n ∷ h.ns) % 2 ^ 64 in
      let timestamp = decimal 0 (h.t ∷ h.ts) % 2 ^ 64 in
      let read =
        scan_block_ref_header-text h.pre h.n h.ns h.hs h.t h.ts h.rest p.unquoted p.number_digits
          p.timestamp_digits p.hash_unquoted p.hash_unopened p.hash_unclosed in
      let o = on_block s number timestamp (b'0' ∷ h.hs) (text h) in
      ap (scan_each on_block s) (lines-append (text h) (page hs) p.one_line)
      ∙ scan_each-line s (text h) (lines (page hs)) number timestamp (b'0' ∷ h.hs) read
      ∙ same_step o (λ s'. scan_each-deliver s' hs ps)
    where
      same_step :
          (o : S × Option E)
          → ((s' : S) → scan_each on_block s' (lines (page hs)) ≡ deliver s' hs)
          → after_callback o (lines (page hs))
            ≡ elim o.1 [ none ↦ deliver o.0 hs | some e ↦ (o.0, some (refused e)) ]
      same_step (s', none) ih = ih s'
      same_step (s', some e) ih = refl

  -- A page of printed header lines is delivered to the callback: each line, in order, with the numbers
  -- that its digits stand for modulo 2 ^ 64 and its hash, up to the first that the callback refuses.
  pub scan_headers-page :
      (s : S) (hs : List HeaderLine)
      → ArePrinted hs
      → scan_headers_with_line on_block s (page hs) ≡ some (deliver s hs)
  scan_headers-page s hs p =
      scan_headers-each on_block s (page hs) ∙ ap some (scan_each-deliver s hs p)
