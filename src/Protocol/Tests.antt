-- ===== src/Protocol/Tests.antt =====
-- The theorems of src/protocol/resp at concrete inputs, and runs of tests/protocol/resp_parser_test.cpp.
use distributed_cache.Prelude.{◌<◌, ◌≡◌, refl, Bytes, codes, [], ◌∷◌, ◌++◌, length, arith}
use distributed_cache.Prelude.Decimal.{decimal, to_string, parse_digits}
use distributed_cache.Protocol.Resp.{
  crlf, no_command, read_line, parse_number, read_header, cut_part, read_part, read_parts,
  command_of, parse_resp, encode_bulk_string,
}
use distributed_cache.Protocol.Resp.RoundTrip.{
  AllShort, encode_parts, encode_request, parse_resp-encode_request,
}
use distributed_cache.Protocol.Resp.Streaming.{parse_resp-append}

abbrev ping : Bytes
unfolding encode_request
ping = encode_request (codes "PING" ∷ [])

abbrev ping_frame : Bytes
ping_frame = codes "*1" ++ crlf ++ codes "$4" ++ crlf ++ codes "PING" ++ crlf

ping_encoded : ping ≡ ping_frame
unfolding ping encode_parts encode_bulk_string to_string decimal
ping_encoded = refl

parse_resp-encode_request_example :
    parse_resp (encode_request (codes "GET" ∷ codes "foo" ∷ []) ++ codes "*1") ≡ (record {
      command = record { name = codes "GET"; args = codes "foo" ∷ [] };
      bytes_consumed = length (encode_request (codes "GET" ∷ codes "foo" ∷ []));
    })
parse_resp-encode_request_example =
    parse_resp-encode_request (codes "GET") (codes "foo" ∷ []) (codes "*1") (omega arith)
      (omega arith, (omega arith, tt))

parse_resp-append_example :
    (parse_resp (ping_frame ++ codes "*1") ≡ parse_resp ping_frame)
    × (length (parse_resp ping_frame).command.args < 1024)
    × AllShort ((parse_resp ping_frame).command.name ∷ (parse_resp ping_frame).command.args)
unfolding parse_resp read_header read_line parse_number parse_digits read_parts read_part cut_part
    command_of
parse_resp-append_example = parse_resp-append ping_frame (codes "*1") (omega arith)

-- `RejectsOversizedArrayCount`, `RejectsOversizedBulkLength`, `RejectsOverflowingArrayCount`,
-- `RejectsTruncatedBulkString`, `RejectsBadBulkCRLF`
oversized_array : parse_resp (codes "*1025" ++ crlf) ≡ no_command
unfolding parse_resp read_header read_line parse_number parse_digits read_parts read_part cut_part
    command_of
oversized_array = refl

oversized_bulk : parse_resp (codes "*1" ++ crlf ++ codes "$1048577" ++ crlf) ≡ no_command
unfolding parse_resp read_header read_line parse_number parse_digits read_parts read_part cut_part
    command_of
oversized_bulk = refl

overflowing_array : parse_resp (codes "*999999999999999999999999" ++ crlf) ≡ no_command
unfolding parse_resp read_header read_line parse_number parse_digits read_parts read_part cut_part
    command_of
overflowing_array = refl

truncated_bulk : parse_resp (codes "*1" ++ crlf ++ codes "$3" ++ crlf ++ codes "GE") ≡ no_command
unfolding parse_resp read_header read_line parse_number parse_digits read_parts read_part cut_part
    command_of
truncated_bulk = refl

bad_end : parse_resp (codes "*1" ++ crlf ++ codes "$3" ++ crlf ++ codes "GET!!") ≡ no_command
unfolding parse_resp read_header read_line parse_number parse_digits read_parts read_part cut_part
    command_of
bad_end = refl
