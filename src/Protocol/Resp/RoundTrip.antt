-- ===== src/Protocol/Resp/RoundTrip.antt =====
-- On requests as the protocol writes them, and what the parser makes of them.
use distributed_cache.Prelude.{
  ℕ, ◌-◌, ◌<◌, ◌≤◌, pos, Bytes, codes, ◌≡◌, refl, ap, ◌∙◌, some, List, [], ◌∷◌, ◌++◌, length,
  length-append, append_assoc, take-append, drop-append, All, arith,
}
use distributed_cache.Prelude.Decimal.{to_string}
use distributed_cache.Protocol.Resp.{
  crlf, read_header, cut_part, read_part, read_parts, command_of, parse_resp, encode_bulk_string,
}
use distributed_cache.Protocol.Resp.Reading.{read_header-to_string}

encode_bulk_string-append :
    (value rest : Bytes)
    → encode_bulk_string value ++ rest
      ≡ 36 ∷ (to_string (length value) ++ (crlf ++ (value ++ (crlf ++ rest))))
unfolding encode_bulk_string
encode_bulk_string-append value rest = simp append_assoc

read_part-encode_bulk_string :
    (value rest : Bytes)
    → length value ≤ 1048576
    → read_part (encode_bulk_string value ++ rest) ≡ some (value, rest)
unfolding read_part cut_part
read_part-encode_bulk_string value rest h = rw (encode_bulk_string-append value rest) (
    rw
      (
        read_part,
        read_header-to_string 36 (length value) (value ++ (crlf ++ rest)) refl (omega arith),
      )
      (ground (
        arith,
        length-append value (crlf ++ rest),
        take-append value (crlf ++ rest),
        drop-append value (crlf ++ rest),
      )))

-- The parts of a request, one after the other.
unfoldable pub encode_parts : List Bytes → Bytes
encode_parts [] = []
encode_parts (part ∷ parts) = encode_bulk_string part ++ encode_parts parts

-- A request, as the protocol writes it: an array of bulk strings.
unfoldable pub encode_request : List Bytes → Bytes
unfolding encode_parts
encode_request parts = codes "*" ++ to_string (length parts) ++ crlf ++ encode_parts parts

abbrev pub AllShort : List Bytes → Type 0
AllShort = All (λ part. length part ≤ 1048576)

read_parts-encode_parts :
    (parts : List Bytes) (rest : Bytes)
    → AllShort parts
    → read_parts (length parts) (encode_parts parts ++ rest) ≡ some (parts, rest)
unfolding read_parts encode_parts
read_parts-encode_parts [] rest h = refl
read_parts-encode_parts (part ∷ parts) rest h =
    rw (append_assoc (encode_bulk_string part) (encode_parts parts) rest) (
      rw (read_parts, read_part-encode_bulk_string part (encode_parts parts ++ rest) h.0)
        (rw (read_parts-encode_parts parts rest h.1) refl))

encode_request-append :
    (parts : List Bytes) (rest : Bytes)
    → encode_request parts ++ rest
      ≡ 42 ∷ (to_string (length parts) ++ (crlf ++ (encode_parts parts ++ rest)))
unfolding encode_request
encode_request-append parts rest = simp append_assoc

pub parse_resp_found :
    (frame after end : Bytes) (n : ℕ) (parts : List Bytes)
    → read_header 42 frame ≡ some (pos n, after)
    → 0 < n
    → n ≤ 1024
    → read_parts n after ≡ some (parts, end)
    → parse_resp frame
      ≡ (record { command = command_of parts; bytes_consumed = length frame - length end })
unfolding parse_resp
parse_resp_found frame after end n parts e p few f = ground (arith, e, f)

-- A request of one to 1024 parts, each of at most 2^20 bytes, is parsed to its parts, whatever bytes
-- come after it in the buffer, and the parser consumes the request and no more.
pub parse_resp-encode_request :
    (name : Bytes) (args : List Bytes) (rest : Bytes)
    → length args < 1024
    → AllShort (name ∷ args)
    → parse_resp (encode_request (name ∷ args) ++ rest) ≡ (record {
      command = record { name = name; args = args };
      bytes_consumed = length (encode_request (name ∷ args));
    })
unfolding command_of
parse_resp-encode_request name args rest few short =
    let parts : List Bytes = name ∷ args in
    let consumed : length (encode_request parts ++ rest) - length rest
        ≡ length (encode_request parts) =
      omega (arith, length-append (encode_request parts) rest) in
    let header =
      read_header-to_string 42 (length parts) (encode_parts parts ++ rest) refl (omega arith) in
    parse_resp_found (encode_request parts ++ rest) (encode_parts parts ++ rest) rest (length parts)
      parts (rw (encode_request-append parts rest) header) (omega arith) (omega arith)
      (read_parts-encode_parts parts rest short)
    ∙ ap (λ c. record { command = record { name = name; args = args }; bytes_consumed = c })
        consumed
