-- ===== src/Protocol/Resp.antt =====
-- src/protocol/resp/resp_parser.hpp and .cpp, and `EncodeBulkString` of src/server/command_dispatcher.cpp.
-- An offset into the frame is the list of the bytes from it on. The proofs are in the modules below.
pub mod Reading
pub mod RoundTrip
pub mod Streaming
use distributed_cache.Prelude.{
  ℕ, zero, suc, ◌+◌, ◌-◌, ◌^◌, ℤ, pos, negsuc, pos_part, sub_ℕ, leb_ℤ, Bytes, bytes_eqb, is_empty,
  codes, Bool, true, false, not, ◌&&◌, ◌||◌, Option, none, some, List, [], ◌∷◌, ◌++◌, length, take,
  drop, ltb, leb, nat_eqb, if◌then◌else◌,
}
use distributed_cache.Prelude.Decimal.{to_string, parse_digits}

pub record RespCommand : Type 0 where
  pub name : Bytes
  pub args : List Bytes

pub record RespParseResult : Type 0 where
  pub command : RespCommand
  pub bytes_consumed : ℕ

abbrev pub crlf : Bytes
crlf = 13 ∷ 10 ∷ []

abbrev pub max_array_elements : ℤ
max_array_elements = pos 1024

abbrev pub max_bulk_length : ℤ
max_bulk_length = pos 1048576

-- `ReadLine`: the line, and the bytes after its end.
unfoldable pub read_line : Bytes → Option (Bytes × Bytes)
read_line [] = none
read_line (c ∷ rest) =
    let later = read_line rest in
    if bytes_eqb (take 2 (c ∷ rest)) crlf
    then some ([], drop 1 rest)
    else elim later [ none ↦ none | some (line, after) ↦ some (c ∷ line, after) ]

-- `std::from_chars` into a `long long`, where it reads the whole text.
unfoldable pub parse_number : Bytes → Option ℤ
parse_number [] = none
parse_number (c ∷ cs) =
    if nat_eqb c 45
    then (if is_empty cs then none else elim (parse_digits 0 cs) [
      | none ↦ none
      | some n ↦ if leb n (2 ^ 63) then some (sub_ℕ 0 n) else none
    ])
    else elim (parse_digits 0 (c ∷ cs)) [
      | none ↦ none
      | some n ↦ if ltb n (2 ^ 63) then some (pos n) else none
    ]

-- A line of the mark and a number, in `ParseRESP`.
unfoldable pub read_header : ℕ → Bytes → Option (ℤ × Bytes)
unfolding read_line parse_number
read_header mark frame = elim (read_line frame) [
  | none ↦ none
  | some ([], after) ↦ none
  | some (c ∷ digits, after) ↦
      if nat_eqb c mark
      then elim (parse_number digits) [ none ↦ none | some n ↦ some (n, after) ]
      else none
]

-- The bytes of a part, and those after the end of its line.
unfoldable pub cut_part : ℕ → Bytes → Option (Bytes × Bytes)
cut_part size after =
    if ltb (length after) 2 || ltb (length after - 2) size
    then none
    else if bytes_eqb (take 2 (drop size after)) crlf
    then some (take size after, drop 2 (drop size after))
    else none

-- The body of the loop: a part, and the bytes after it.
unfoldable pub read_part : Bytes → Option (Bytes × Bytes)
unfolding read_header
read_part frame = elim (read_header 36 frame) [
  | none ↦ none
  | some (length, after) ↦
      if not (leb_ℤ (pos 0) length) || not (leb_ℤ length max_bulk_length)
      then none
      else cut_part (pos_part length) after
]

-- The loop, with the rounds that are left.
unfoldable pub read_parts : ℕ → Bytes → Option (List Bytes × Bytes)
unfolding read_part
read_parts zero frame = some ([], frame)
read_parts (suc left) frame = elim (read_part frame) [
  | none ↦ none
  | some (part, after) ↦ elim (read_parts left after) [
    | none ↦ none
    | some (parts, end) ↦ some (part ∷ parts, end)
  ]
]

-- `result` as it is at the start.
abbrev pub no_command : RespParseResult
no_command = record { command = record { name = []; args = [] }; bytes_consumed = 0 }

unfoldable pub command_of : List Bytes → RespCommand
command_of [] = record { name = []; args = [] }
command_of (part ∷ parts) = record { name = part; args = parts }

unfoldable pub parse_resp : Bytes → RespParseResult
unfolding read_header read_parts command_of
parse_resp frame = elim (read_header 42 frame) [
  | none ↦ no_command
  | some (count, after) ↦
      if leb_ℤ count (pos 0) || not (leb_ℤ count max_array_elements)
      then no_command
      else elim (read_parts (pos_part count) after) [
        | none ↦ no_command
        | some (parts, end) ↦ record {
          command = command_of parts;
          bytes_consumed = length frame - length end;
        }
      ]
]

unfoldable pub encode_bulk_string : Bytes → Bytes
unfolding to_string
encode_bulk_string value = codes "$" ++ to_string (length value) ++ crlf ++ value ++ crlf
