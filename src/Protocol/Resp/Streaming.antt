-- ===== src/Protocol/Resp/Streaming.antt =====
-- On frames that more bytes follow in the buffer.
use distributed_cache.Prelude.{
  ℕ, zero, suc, ◌+◌, ◌-◌, ◌<◌, ◌≤◌, ℤ, pos, negsuc, pos_part, Bytes, ◌≡◌, refl, ap, some, List, [],
  ◌∷◌, ◌++◌, length, length-append, length-drop, take, drop, take-append_le, drop-append_le, arith,
  Option-cases, inl, inr,
}
use distributed_cache.Protocol.Resp.{
  read_line, read_header, cut_part, read_part, read_parts, command_of, parse_resp,
}
use distributed_cache.Protocol.Resp.RoundTrip.{AllShort, parse_resp_found}

read_line-append :
    (frame more line after : Bytes)
    → read_line frame ≡ some (line, after)
    → read_line (frame ++ more) ≡ some (line, after ++ more)
unfolding read_line
read_line-append [] more line after e = cc
read_line-append (c ∷ []) more line after e = absurd (ground (arith, e))
read_line-append (c ∷ d ∷ rest) more line after e = elim (Option-cases (read_line (d ∷ rest))) [
  | inl out ↦ ground (arith, e, out)
  | inr ((l, a), found) ↦ ground (arith, e, found, read_line-append (d ∷ rest) more l a found)
]

read_header-append :
    (mark : ℕ) (frame more after : Bytes) (n : ℤ)
    → read_header mark frame ≡ some (n, after)
    → read_header mark (frame ++ more) ≡ some (n, after ++ more)
unfolding read_header
read_header-append mark frame more after n e = elim (Option-cases (read_line frame)) [
  | inl out ↦ absurd (ground (arith, e, out))
  | inr ((l, a), found) ↦ ground (arith, e, found, read_line-append frame more l a found)
]

length-take_le : (n : ℕ) (xs : Bytes) → length (take n xs) ≤ n
length-take_le zero xs = omega arith
length-take_le (suc n) [] = omega arith
length-take_le (suc n) (x ∷ xs) = omega (arith, length-take_le n xs)

-- The places of the bytes that `cut_part` looks at.
cut_part_fits :
    (size : ℕ) (rest part after : Bytes)
    → cut_part size rest ≡ some (part, after)
    → (2 + size ≤ length rest) × (length part ≤ size)
unfolding cut_part
cut_part_fits size rest part after e = ground (arith, e, length-take_le size rest)

cut_part-append :
    (size : ℕ) (rest more part after : Bytes)
    → cut_part size rest ≡ some (part, after)
    → cut_part size (rest ++ more) ≡ some (part, after ++ more)
unfolding cut_part
cut_part-append size rest more part after e =
    let (fits, _) = cut_part_fits size rest part after e in
    ground (
      arith,
      e,
      fits,
      length-append rest more,
      take-append_le size rest more (omega (arith, fits)),
      drop-append_le size rest more (omega (arith, fits)),
      take-append_le 2 (drop size rest) more (omega (arith, fits, length-drop size rest)),
      drop-append_le 2 (drop size rest) more (omega (arith, fits, length-drop size rest)),
    )

read_part-append :
    (frame more part after : Bytes)
    → read_part frame ≡ some (part, after)
    → (read_part (frame ++ more) ≡ some (part, after ++ more)) × (length part ≤ 1048576)
unfolding read_part
read_part-append frame more part after e = elim (Option-cases (read_header 36 frame)) [
  | inl out ↦ absurd (ground (arith, e, out))
  | inr ((n, a), found) ↦
      let cut : cut_part (pos_part n) a ≡ some (part, after) = ground (arith, e, found) in
      ground (
        arith,
        e,
        found,
        read_header-append 36 frame more a n found,
        cut_part-append (pos_part n) a more part after cut,
        cut_part_fits (pos_part n) a part after cut,
      )
]

read_parts-append :
    (n : ℕ) (frame more : Bytes) (parts : List Bytes) (end : Bytes)
    → read_parts n frame ≡ some (parts, end)
    → (read_parts n (frame ++ more) ≡ some (parts, end ++ more))
      × (length parts ≡ n)
      × AllShort parts
unfolding read_parts
read_parts-append zero frame more parts end e =
    let p : [] ≡ parts = ground (arith, e) in
    let q : frame ≡ end = ground (arith, e) in rw (← p, ← q) (refl, refl, tt)
read_parts-append (suc n) frame more parts end e = elim (Option-cases (read_part frame)) [
  | inl out ↦ absurd (ground (arith, e, out))
  | inr ((part, a), found) ↦ elim (Option-cases (read_parts n a)) [
    | inl out ↦ absurd (ground (arith, e, found, out))
    | inr ((ps, z), rest) ↦
        let (more_part, short) = read_part-append frame more part a found in
        let (more_parts, count, all) = read_parts-append n a more ps z rest in
        let p : part ∷ ps ≡ parts = ground (arith, e, found, rest) in
        let q : z ≡ end = ground (arith, e, found, rest) in
        rw (← p, ← q) (ground (arith, more_part, more_parts), ap suc count, (short, all))
  ]
]

-- What a frame that is complete consists of.
record IsComplete (frame : Bytes) : Type 0 where
  count : ℕ
  after : Bytes
  end : Bytes
  parts : List Bytes
  header : read_header 42 frame ≡ some (pos count, after)
  positive : 0 < count
  few : count ≤ 1024
  read : read_parts count after ≡ some (parts, end)

parse_resp-IsComplete : (frame : Bytes) → 0 < (parse_resp frame).bytes_consumed → IsComplete frame
unfolding parse_resp
parse_resp-IsComplete frame h = elim (Option-cases (read_header 42 frame)) [
  | inl out ↦ absurd (ground (arith, h, out))
  | inr ((negsuc n, a), found) ↦ absurd (ground (arith, h, found))
  | inr ((pos n, a), found) ↦ elim (Option-cases (read_parts n a)) [
    | inl out ↦ absurd (ground (arith, h, found, out))
    | inr ((parts, end), read) ↦ record {
      count = n;
      after = a;
      end = end;
      parts = parts;
      header = found;
      positive = ground (arith, h, found);
      few = ground (arith, h, found);
      read = read;
    }
  ]
]

command_of_fits :
    (parts : List Bytes)
    → 0 < length parts
    → length parts ≤ 1024
    → AllShort parts
    → (length (command_of parts).args < 1024)
      × AllShort ((command_of parts).name ∷ (command_of parts).args)
unfolding command_of
command_of_fits [] h few short = absurd (omega arith)
command_of_fits (part ∷ parts) h few short = (omega arith, short)

-- Where the parser consumes a command from a buffer, the command has at most 1023 arguments, no part of
-- it is longer than 2^20 bytes, and with any more bytes at the end of the buffer the parser finds the
-- same command and consumes as much.
pub parse_resp-append :
    (frame more : Bytes)
    → 0 < (parse_resp frame).bytes_consumed
    → (parse_resp (frame ++ more) ≡ parse_resp frame)
      × (length (parse_resp frame).command.args < 1024)
      × AllShort ((parse_resp frame).command.name ∷ (parse_resp frame).command.args)
parse_resp-append frame more h =
    let c = parse_resp-IsComplete frame h in
    let (again, count, short) = read_parts-append c.count c.after more c.parts c.end c.read in
    let here =
      parse_resp_found frame c.after c.end c.count c.parts c.header c.positive c.few c.read in
    let there =
      parse_resp_found (frame ++ more) (c.after ++ more) (c.end ++ more) c.count c.parts
        (read_header-append 42 frame more c.after (pos c.count) c.header) c.positive c.few again in
    let same : length (frame ++ more) - length (c.end ++ more) ≡ length frame - length c.end =
      omega (arith, length-append frame more, length-append c.end more) in
    let (bounded, all) =
      command_of_fits c.parts (omega (arith, count, c.positive)) (omega (arith, count, c.few))
        short in
    rw (there, here)
      (ap (λ b. record { command = command_of c.parts; bytes_consumed = b }) same, bounded, all)

-- The parser consumes no more than there is.
pub parse_resp_consumed : (frame : Bytes) → (parse_resp frame).bytes_consumed ≤ length frame
unfolding parse_resp
parse_resp_consumed frame = elim (Option-cases (read_header 42 frame)) [
  | inl out ↦ ground (arith, out)
  | inr ((n, a), found) ↦ elim (Option-cases (read_parts (pos_part n) a)) [
    | inl out ↦ ground (arith, found, out)
    | inr ((parts, end), read) ↦ ground (arith, found, read)
  ]
]
