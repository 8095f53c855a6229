-- ===== src/Jsonl/Tests.antt =====
-- The theorems on the scanner at short pages.
use sqd_go.Base.{ℕ, ◌≡◌, refl, Option, none, some, List, [], ◌∷◌, ltb, if◌then◌else◌}
use sqd_go.Jsonl.{scan_block_ref_header, scan_headers_with_line}
use sqd_go.Jsonl.Headers.{line_text, scan_block_ref_header-text}
use sqd_go.Jsonl.Pages.{
  HeaderLine, IsPrinted, page, deliver, scan_headers-page, lines, scan_each, scan_headers-each,
}

-- `{"header":{"number":12,"hash":"0x","timestamp":7},`
abbrev first_line : HeaderLine
first_line = record {
  pre = b'{' ∷ [];
  n = b'1';
  ns = b'2' ∷ [];
  hs = b'x' ∷ [];
  t = b'7';
  ts = [];
  rest = b',' ∷ [];
}

abbrev second_line : HeaderLine
second_line = record first_line { n = b'3'; ns = []; rest = [] }

-- Gathers the numbers and refuses block 3.
abbrev gather : List ℕ → ℕ → ℕ → List ℕ → List ℕ → List ℕ × Option ℕ
gather ns n t h l = (n ∷ ns, if ltb n 4 then some n else none)

first_line-IsPrinted : IsPrinted first_line
first_line-IsPrinted = record {
  unquoted = refl;
  number_digits = refl;
  timestamp_digits = refl;
  hash_unquoted = refl;
  hash_unopened = refl;
  hash_unclosed = refl;
  one_line = refl;
}

second_line-IsPrinted : IsPrinted second_line
second_line-IsPrinted = record {
  unquoted = refl;
  number_digits = refl;
  timestamp_digits = refl;
  hash_unquoted = refl;
  hash_unopened = refl;
  hash_unclosed = refl;
  one_line = refl;
}

scan_block_ref_header-text_example :
    scan_block_ref_header
      (line_text (b'{' ∷ []) (b'1' ∷ b'2' ∷ []) (b'x' ∷ []) (b'7' ∷ []) (b',' ∷ []))
    ≡ some (12, 7, b'0' ∷ b'x' ∷ [])
scan_block_ref_header-text_example =
    scan_block_ref_header-text (b'{' ∷ []) b'1' (b'2' ∷ []) (b'x' ∷ []) b'7' [] (b',' ∷ []) refl
      refl refl refl refl refl

scan_headers-page_example :
    scan_headers_with_line gather [] (page (first_line ∷ second_line ∷ first_line ∷ []))
    ≡ some (deliver gather [] (first_line ∷ second_line ∷ first_line ∷ []))
scan_headers-page_example =
    scan_headers-page gather [] (first_line ∷ second_line ∷ first_line ∷ [])
      (first_line-IsPrinted, (second_line-IsPrinted, (first_line-IsPrinted, tt)))

scan_headers-each_example :
    scan_headers_with_line gather [] (b'\n' ∷ b'x' ∷ [])
    ≡ some (scan_each gather [] (lines (b'\n' ∷ b'x' ∷ [])))
scan_headers-each_example = scan_headers-each gather [] (b'\n' ∷ b'x' ∷ [])
