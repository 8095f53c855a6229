-- ===== src/Jsonl.antt =====
-- internal/parser/jsonl.go: the scanner of block headers in pages of JSON lines. Texts are lists of
-- bytes, and slices of a text are its parts: a search for a byte or a key returns what follows, and
-- what precedes it where the code uses that.
pub mod Search
pub mod Headers
pub mod Pages
mod Tests
use sqd_go.Base.{
  ℕ, zero, suc, ◌+◌, ◌-◌, ◌*◌, ◌%◌, ◌^◌, Bool, true, false, ◌&&◌, ◌||◌, Option, none, some, List,
  [], ◌∷◌, ltb, leb, ◌==◌, if◌then◌else◌, length, take, ◌>>=◌,
}

abbrev pub quote : ℕ
quote = b'"'

abbrev pub newline : ℕ
newline = b'\n'

abbrev pub colon : ℕ
colon = b':'

abbrev pub open_brace : ℕ
open_brace = b'{'

abbrev pub close_brace : ℕ
close_brace = b'}'

abbrev pub header_key : List ℕ
header_key = b'"' ∷ b'h' ∷ b'e' ∷ b'a' ∷ b'd' ∷ b'e' ∷ b'r' ∷ b'"' ∷ []

abbrev pub number_key : List ℕ
number_key = b'"' ∷ b'n' ∷ b'u' ∷ b'm' ∷ b'b' ∷ b'e' ∷ b'r' ∷ b'"' ∷ []

abbrev pub timestamp_key : List ℕ
timestamp_key = b'"' ∷ b't' ∷ b'i' ∷ b'm' ∷ b'e' ∷ b's' ∷ b't' ∷ b'a' ∷ b'm' ∷ b'p' ∷ b'"' ∷ []

abbrev pub hash_key : List ℕ
hash_key = b'"' ∷ b'h' ∷ b'a' ∷ b's' ∷ b'h' ∷ b'"' ∷ []

-- The text before and after the first `c`, as `bytes.IndexByte` finds it.
pub cut : ℕ → List ℕ → Option (List ℕ × List ℕ)
cut c [] = none
cut c (x ∷ xs) =
    let rest = cut c xs in
    if x == c then some ([], xs) else (do (before, after) ← rest; some (x ∷ before, after))

-- What follows a prefix.
pub strip : List ℕ → List ℕ → Option (List ℕ)
strip [] xs = some xs
strip (k ∷ ks) [] = none
strip (k ∷ ks) (x ∷ xs) = if k == x then strip ks xs else none

-- What follows the first occurrence of a key, as `bytes.Index` finds it; a key is not empty.
pub after_key : List ℕ → List ℕ → Option (List ℕ)
unfolding strip
after_key key [] = none
after_key key (x ∷ xs) =
    let rest = after_key key xs in elim (strip key (x ∷ xs)) [ none ↦ rest | some ys ↦ some ys ]

pub skip_blanks : List ℕ → List ℕ
skip_blanks [] = []
skip_blanks (x ∷ xs) =
    let rest = skip_blanks xs in if (x == b' ') || (x == b'\t') then rest else x ∷ xs

-- What follows the colon after a key, without blanks: the start of the three scanners.
pub after_colon : List ℕ → List ℕ → Option (List ℕ)
unfolding after_key cut skip_blanks
after_colon key b = do rest ← after_key key b; (_, value) ← cut colon rest; some (skip_blanks value)

-- The walk that returns the text up to the brace that closes the first one. The text begins with an
-- open brace, so the depth is not 0 at a closing one.
pub brace_loop : ℕ → List ℕ → Option (List ℕ)
brace_loop depth [] = none
brace_loop depth (x ∷ xs) =
    let after =
      if x == open_brace then depth + 1 else if x == close_brace then depth - 1 else depth in
    let rest = brace_loop after xs in
    if (x == close_brace) && (depth == 1) then some (x ∷ []) else (do ys ← rest; some (x ∷ ys))

opens : ℕ → List ℕ → Bool
opens c [] = false
opens c (x ∷ xs) = x == c

pub header_object : List ℕ → Option (List ℕ)
unfolding after_colon brace_loop opens
header_object line = do
  rest ← after_colon header_key line
  if opens open_brace rest then brace_loop 0 rest else none

abbrev pub is_digit : ℕ → Bool
is_digit c = leb b'0' c && leb c b'9'

-- The loop over the digits, from the number so far.
pub digits_loop : ℕ → List ℕ → ℕ
digits_loop n [] = n
digits_loop n (x ∷ xs) =
    let rest = digits_loop ((n * 10 + (x - b'0')) % 2 ^ 64) xs in if is_digit x then rest else n

starts_with_digit : List ℕ → Bool
starts_with_digit [] = false
starts_with_digit (x ∷ xs) = is_digit x

pub scan_uint_field : List ℕ → List ℕ → Option ℕ
unfolding after_colon digits_loop starts_with_digit
scan_uint_field b key = do
  rest ← after_colon key b
  if starts_with_digit rest then some (digits_loop 0 rest) else none

quoted_value : List ℕ → Option (List ℕ)
unfolding cut
quoted_value [] = none
quoted_value (x ∷ xs) = if x == quote then (do (value, _) ← cut quote xs; some value) else none

pub scan_string_field : List ℕ → List ℕ → Option (List ℕ)
unfolding after_colon quoted_value
scan_string_field b key = do rest ← after_colon key b; quoted_value rest

abbrev or_zero : Option ℕ → ℕ
or_zero none = 0
or_zero (some n) = n

abbrev or_empty : Option (List ℕ) → List ℕ
or_empty none = []
or_empty (some xs) = xs

-- Number, timestamp and hash.
pub scan_block_ref_header : List ℕ → Option (ℕ × ℕ × List ℕ)
unfolding header_object scan_uint_field scan_string_field
scan_block_ref_header line = do
  hdr ← header_object line
  number ← scan_uint_field hdr number_key
  some (
    number,
    or_zero (scan_uint_field hdr timestamp_key),
    or_empty (scan_string_field hdr hash_key),
  )

truncate_for_error : List ℕ → List ℕ
truncate_for_error b = if ltb 120 (length b) then take 120 b else b

-- The error of a page: a line that has no header, cut for the message, or the error of the callback.
pub data ScanError (E : Type 0) : Type 0 where
  malformed : List ℕ → ScanError E
  refused : E → ScanError E

-- The next line, and the data after its newline.
pub next_line : List ℕ → List ℕ × List ℕ
unfolding cut
next_line xs = elim (cut newline xs) [ none ↦ (xs, []) | some parts ↦ parts ]

-- An empty line is passed over, and an error ends the loop.
abbrev pub go_on :
    {S A : Type 0} → List ℕ → S × Option A → Option (S × Option A) → Option (S × Option A)
go_on [] o rest = rest
go_on (x ∷ xs) (s, none) rest = rest
go_on (x ∷ xs) (s, some e) rest = some (s, some e)

-- What is gathered when the loop goes on.
abbrev pub gathered : {S A : Type 0} → List ℕ → S → S × Option A → S
gathered [] s o = s
gathered (x ∷ xs) s o = o.0

module _ {S E : Type 0}
    -- `onBlock` with what it has gathered: number, timestamp, hash and line.
    (on_block : S → ℕ → ℕ → List ℕ → List ℕ → S × Option E) where
  -- One line that is not empty.
  pub scan_line : S → List ℕ → S × Option (ScanError E)
  unfolding scan_block_ref_header truncate_for_error
  scan_line s line = elim (scan_block_ref_header line) [
    | none ↦ (s, some (malformed (truncate_for_error line)))
    | some (number, timestamp, hash) ↦
        let (s', err) = on_block s number timestamp hash line in
        (s', elim err [ none ↦ none | some e ↦ some (refused e) ])
  ]

  -- The loop over the lines of a page, on fuel.
  pub scan_loop : ℕ → S → List ℕ → Option (S × Option (ScanError E))
  unfolding next_line scan_line
  scan_loop fuel s [] = some (s, none)
  scan_loop zero s (x ∷ xs) = none
  scan_loop (suc fuel) s (x ∷ xs) =
      let (line, rest) = next_line (x ∷ xs) in
      let o = scan_line s line in go_on line o (scan_loop fuel (gathered line s o) rest)

  -- Every line takes a byte at least.
  pub scan_headers_with_line : S → List ℕ → Option (S × Option (ScanError E))
  unfolding scan_loop
  scan_headers_with_line s data_ = scan_loop (length data_) s data_
