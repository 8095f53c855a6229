-- ===== src/Jsonl/Headers.antt =====
-- The scanner reads back the fields of a header.
use sqd_go.Base.{
  ℕ, ◌%◌, ◌^◌, ◌≡◌, refl, sym, ap, ◌∙◌, Bool, true, false, not, Option, none, some, List, [], ◌∷◌,
  ◌++◌, append_assoc, append-nil, ◌==◌, if◌then◌else◌, arith,
}
use sqd_go.Jsonl.{
  cut, strip, after_key, after_colon, skip_blanks, brace_loop, is_digit, quote, open_brace,
  close_brace, colon, header_key, number_key, timestamp_key, hash_key, header_object,
  scan_uint_field, scan_string_field, scan_block_ref_header, opens, starts_with_digit, quoted_value,
}
use sqd_go.Jsonl.Search.{
  all, Lacks, all-append, digit-is_not, cut-append, after_key-skip, skip_blanks-digit,
  brace_loop-append, decimal, digits_loop-decimal, no_digit,
}

-- `,"timestamp":<ts>`
abbrev timestamp_text : List ℕ → List ℕ → List ℕ
timestamp_text ts tail = b',' ∷ (timestamp_key ++ (colon ∷ (ts ++ tail)))

-- `,"hash":"0<hs>"`, and what follows.
abbrev hash_text : List ℕ → List ℕ → List ℕ
hash_text hs tail = b',' ∷ (hash_key ++ (colon ∷ quote ∷ b'0' ∷ (hs ++ (quote ∷ tail))))

-- The fields of a header, up to its closing brace.
abbrev fields_text : List ℕ → List ℕ → List ℕ → List ℕ → List ℕ
fields_text ns hs ts tail = number_key ++ (colon ∷ (ns ++ hash_text hs (timestamp_text ts tail)))

-- `{"number":<ns>,"hash":"0<hs>","timestamp":<ts>}`
abbrev header_text : List ℕ → List ℕ → List ℕ → List ℕ
header_text ns hs ts = open_brace ∷ fields_text ns hs ts (close_brace ∷ [])

-- A line with text before `"header":` and after the header.
abbrev pub line_text : List ℕ → List ℕ → List ℕ → List ℕ → List ℕ → List ℕ
line_text pre ns hs ts rest =
    pre ++ (header_key ++ (colon ∷ open_brace ∷ fields_text ns hs ts (close_brace ∷ rest)))

number-after :
    (n : ℕ) (ns hs ts : List ℕ)
    → is_digit n ≡ true
    → after_colon number_key (header_text (n ∷ ns) hs ts)
      ≡ some (n ∷ (ns ++ hash_text hs (timestamp_text ts (close_brace ∷ []))))
unfolding after_colon after_key strip cut
number-after n ns hs ts d =
    rw (skip_blanks-digit n (ns ++ hash_text hs (timestamp_text ts (close_brace ∷ []))) d)

hash-after :
    (ns hs ts : List ℕ)
    → all is_digit ns ≡ true
    → after_colon hash_key (header_text ns hs ts)
      ≡ some (quote ∷ b'0' ∷ (hs ++ (quote ∷ timestamp_text ts (close_brace ∷ []))))
unfolding after_colon after_key strip cut skip_blanks
hash-after ns hs ts d =
    let tail = timestamp_text ts (close_brace ∷ []) in
    rw (
      after_key-skip (b'h' ∷ b'a' ∷ b's' ∷ b'h' ∷ quote ∷ []) ns (hash_text hs tail)
        (digit-is_not quote ns refl d))

timestamp-after :
    (ns hs ts : List ℕ) (t : ℕ)
    → all is_digit ns ≡ true
    → Lacks quote hs
    → is_digit t ≡ true
    → after_colon timestamp_key (header_text ns hs (t ∷ ts)) ≡ some (t ∷ (ts ++ (close_brace ∷ [])))
unfolding after_colon after_key strip cut
timestamp-after ns hs ts t d l dt =
    let tail = timestamp_text (t ∷ ts) (close_brace ∷ []) in
    let key = b't' ∷ b'i' ∷ b'm' ∷ b'e' ∷ b's' ∷ b't' ∷ b'a' ∷ b'm' ∷ b'p' ∷ quote ∷ [] in
    rw (
      after_key-skip key ns (hash_text hs tail) (digit-is_not quote ns refl d),
      after_key-skip key hs (quote ∷ tail) l,
      skip_blanks-digit t (ts ++ (close_brace ∷ [])) dt,
    )

some-if : (b : Bool) {o o' : Option ℕ} → b ≡ true → o ≡ o' → (if b then o else none) ≡ o'
some-if true h e = e
some-if false h e = cc

uint-field :
    (key hdr : List ℕ) (n : ℕ) (ns tail : List ℕ)
    → after_colon key hdr ≡ some (n ∷ (ns ++ tail))
    → all is_digit (n ∷ ns) ≡ true
    → no_digit tail ≡ true
    → scan_uint_field hdr key ≡ some (decimal 0 (n ∷ ns) % 2 ^ 64)
unfolding scan_uint_field starts_with_digit
uint-field key hdr n ns tail e d h =
    let first : is_digit n ≡ true = ground arith in
    rw e (some-if (is_digit n) first (ap some (digits_loop-decimal 0 (n ∷ ns) tail d h)))

fields-append :
    (ns hs ts tail : List ℕ) → fields_text ns hs ts tail ≡ fields_text ns hs ts [] ++ tail
fields-append ns hs ts tail = simp (append_assoc, append-nil)

-- The text of the fields has no braces.
fields-open :
    (ns hs ts : List ℕ)
    → Lacks open_brace ns
    → Lacks open_brace hs
    → Lacks open_brace ts
    → Lacks open_brace (fields_text ns hs ts [])
fields-open ns hs ts ln lh lt =
    let p : ℕ → Bool = λ x. not (x == open_brace) in
    rw (
      all-append p ns (hash_text hs (timestamp_text ts [])),
      ln,
      all-append p hs (quote ∷ timestamp_text ts []),
      lh,
      all-append p ts [],
      lt,
    )

fields-close :
    (ns hs ts : List ℕ)
    → Lacks close_brace ns
    → Lacks close_brace hs
    → Lacks close_brace ts
    → Lacks close_brace (fields_text ns hs ts [])
fields-close ns hs ts ln lh lt =
    let p : ℕ → Bool = λ x. not (x == close_brace) in
    rw (
      all-append p ns (hash_text hs (timestamp_text ts [])),
      ln,
      all-append p hs (quote ∷ timestamp_text ts []),
      lh,
      all-append p ts [],
      lt,
    )

-- The object after the key, up to the first closing brace.
header_object-braces :
    (pre xs rest : List ℕ)
    → Lacks quote pre
    → Lacks open_brace xs
    → Lacks close_brace xs
    → header_object (pre ++ (header_key ++ (colon ∷ open_brace ∷ (xs ++ (close_brace ∷ rest)))))
      ≡ some (open_brace ∷ (xs ++ (close_brace ∷ [])))
unfolding header_object after_colon after_key strip cut skip_blanks opens brace_loop
header_object-braces pre xs rest lp lo lc = rw (
  after_key-skip (b'h' ∷ b'e' ∷ b'a' ∷ b'd' ∷ b'e' ∷ b'r' ∷ quote ∷ []) pre
      (header_key ++ (colon ∷ open_brace ∷ (xs ++ (close_brace ∷ rest)))) lp,
  brace_loop-append 1 xs (close_brace ∷ rest) (close_brace ∷ []) lo lc refl,
)

object-text :
    (pre ns hs ts rest : List ℕ)
    → Lacks quote pre
    → all is_digit ns ≡ true
    → all is_digit ts ≡ true
    → Lacks open_brace hs
    → Lacks close_brace hs
    → header_object (line_text pre ns hs ts rest) ≡ some (header_text ns hs ts)
object-text pre ns hs ts rest lp dn dt lo lc =
    let xs = fields_text ns hs ts [] in
    ap (λ b. header_object (pre ++ (header_key ++ (colon ∷ open_brace ∷ b))))
      (fields-append ns hs ts (close_brace ∷ rest))
    ∙ header_object-braces pre xs rest lp
        (fields-open ns hs ts (digit-is_not open_brace ns refl dn) lo
          (digit-is_not open_brace ts refl dt))
        (fields-close ns hs ts (digit-is_not close_brace ns refl dn) lc
          (digit-is_not close_brace ts refl dt))
    ∙ ap (λ b. some (open_brace ∷ b)) (sym (fields-append ns hs ts (close_brace ∷ [])))

string-field :
    (hdr hs tail : List ℕ)
    → after_colon hash_key hdr ≡ some (quote ∷ b'0' ∷ (hs ++ (quote ∷ tail)))
    → Lacks quote hs
    → scan_string_field hdr hash_key ≡ some (b'0' ∷ hs)
unfolding scan_string_field quoted_value cut
string-field hdr hs tail e l = rw (e, cut-append quote hs tail l)

-- A header that follows text without quotes is read back, whatever comes after it: its hash, which
-- begins with a 0 and has no quotes and no braces, and the numbers that its digits stand for, modulo
-- 2 ^ 64.
pub scan_block_ref_header-text :
    (pre : List ℕ) (n : ℕ) (ns hs : List ℕ) (t : ℕ) (ts rest : List ℕ)
    → Lacks quote pre
    → all is_digit (n ∷ ns) ≡ true
    → all is_digit (t ∷ ts) ≡ true
    → Lacks quote hs
    → Lacks open_brace hs
    → Lacks close_brace hs
    → scan_block_ref_header (line_text pre (n ∷ ns) hs (t ∷ ts) rest)
      ≡ some (decimal 0 (n ∷ ns) % 2 ^ 64, decimal 0 (t ∷ ts) % 2 ^ 64, b'0' ∷ hs)
unfolding scan_block_ref_header
scan_block_ref_header-text pre n ns hs t ts rest lp dn dt lq lo lc = rw (
  object-text pre (n ∷ ns) hs (t ∷ ts) rest lp dn dt lo lc,
  uint-field number_key (header_text (n ∷ ns) hs (t ∷ ts)) n ns
      (hash_text hs (timestamp_text (t ∷ ts) (close_brace ∷ [])))
      (number-after n ns hs (t ∷ ts) (ground arith)) dn refl,
  uint-field timestamp_key (header_text (n ∷ ns) hs (t ∷ ts)) t ts (close_brace ∷ [])
      (timestamp-after (n ∷ ns) hs ts t dn lq (ground arith)) dt refl,
  string-field (header_text (n ∷ ns) hs (t ∷ ts)) hs (timestamp_text (t ∷ ts) (close_brace ∷ []))
      (hash-after (n ∷ ns) hs (t ∷ ts) dn) lq,
)
