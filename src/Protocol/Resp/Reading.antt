-- ===== src/Protocol/Resp/Reading.antt =====
-- What the parser reads of an encoded line, and of an encoded part.
use distributed_cache.Prelude.{
  ℕ, ◌^◌, ◌<◌, pos, Bytes, is_empty, nat_eqb, ◌≡◌, refl, true, false, some, [], ◌∷◌, ◌++◌, All,
  All-mono, arith,
}
use distributed_cache.Prelude.Decimal.{
  to_string, parse_digits, is_digit, AllDigits, to_string-AllDigits, to_string-nonempty,
  parse_digits-to_string,
}
use distributed_cache.Protocol.Resp.{crlf, read_line, parse_number, read_header}

-- No byte is a carriage return.
abbrev pub IsLine : Bytes → Type 0
IsLine = All (λ c. nat_eqb c 13 ≡ false)

pub read_line_found :
    (line rest : Bytes) → IsLine line → read_line (line ++ (crlf ++ rest)) ≡ some (line, rest)
unfolding read_line
read_line_found [] rest h = refl
read_line_found (c ∷ cs) rest h = ground (arith, h, read_line_found cs rest h.1)

parse_number_digits :
    (text : Bytes) (n : ℕ)
    → AllDigits text
    → is_empty text ≡ false
    → parse_digits 0 text ≡ some n
    → n < 2 ^ 63
    → parse_number text ≡ some (pos n)
unfolding parse_number
parse_number_digits [] n d e h b = cc
parse_number_digits (c ∷ cs) n d e h b = ground (arith, d.0, h)

pub parse_number-to_string : (n : ℕ) → n < 2 ^ 63 → parse_number (to_string n) ≡ some (pos n)
parse_number-to_string n h =
    parse_number_digits (to_string n) n (to_string-AllDigits n) (to_string-nonempty n)
      (parse_digits-to_string n (omega arith)) h

to_string-IsLine : (n : ℕ) → IsLine (to_string n)
to_string-IsLine n =
    All-mono (λ c. is_digit c ≡ true) (λ c. nat_eqb c 13 ≡ false) (to_string n)
      (λ c d. ground arith) (to_string-AllDigits n)

pub read_header-to_string :
    (mark n : ℕ) (rest : Bytes)
    → nat_eqb mark 13 ≡ false
    → n < 2 ^ 63
    → read_header mark (mark ∷ (to_string n ++ (crlf ++ rest))) ≡ some (pos n, rest)
unfolding read_header
read_header-to_string mark n rest h b = ground (
  arith,
  read_line_found (mark ∷ to_string n) rest (h, to_string-IsLine n),
  parse_number-to_string n b,
)
