-- ===== src/Server/Session/Requests.antt =====
-- The bytes of requests, whole and in part, and what the parser makes of them.
use distributed_cache.Prelude.{
  ◌<◌, ◌≤◌, Bytes, is_empty, nat_eqb, ltb, ◌≡◌, inl, inr, refl, sym, ap, ◌∙◌, Bool, true, false,
  ◌||◌, List, [], ◌∷◌, ◌++◌, length, length-append, All, arith, Bool-cases,
}
use distributed_cache.Protocol.Resp.{RespCommand, RespParseResult, parse_resp}
use distributed_cache.Protocol.Resp.RoundTrip.{AllShort, encode_request, parse_resp-encode_request}
use distributed_cache.Protocol.Resp.Streaming.{parse_resp-append, parse_resp_consumed}
use distributed_cache.Server.Session.{max_resp_frame_bytes}

-- The bytes of a request, and of several.
unfoldable pub request_bytes : RespCommand → Bytes
unfolding encode_request
request_bytes cmd = encode_request (cmd.name ∷ cmd.args)

unfoldable pub requests_bytes : List RespCommand → Bytes
unfolding request_bytes
requests_bytes [] = []
requests_bytes (cmd ∷ cmds) = request_bytes cmd ++ requests_bytes cmds

-- A request within the limits of the parser and of the buffer.
pub record IsRequest (cmd : RespCommand) : Type 0 where
  pub named : is_empty cmd.name ≡ false
  pub few : length cmd.args < 1024
  pub short : AllShort (cmd.name ∷ cmd.args)
  pub fits : length (request_bytes cmd) ≤ max_resp_frame_bytes

-- Lists that agree where the first is the longer.
pub split_prefix :
    (e b more rest : Bytes)
    → b ++ more ≡ e ++ rest
    → length e ≤ length b
    → (b' : Bytes) × (b ≡ e ++ b') × (b' ++ more ≡ rest)
split_prefix [] b more rest h l = (b, refl, h)
split_prefix (x ∷ e) [] more rest h l = absurd (omega arith)
split_prefix (x ∷ e) (y ∷ b) more rest h l =
    let (b', p, q) = split_prefix e b more rest (cc) (omega arith) in (b', cc, q)

pub parse_resp-request_bytes :
    (cmd : RespCommand) (rest : Bytes)
    → IsRequest cmd
    → parse_resp (request_bytes cmd ++ rest)
      ≡ (record { command = cmd; bytes_consumed = length (request_bytes cmd) })
unfolding request_bytes
parse_resp-request_bytes cmd rest r = parse_resp-encode_request cmd.name cmd.args rest r.few r.short

-- A request of which bytes are missing is left alone.
pub parse_resp_pending :
    (cmd : RespCommand) (buffer more rest : Bytes)
    → IsRequest cmd
    → buffer ++ more ≡ request_bytes cmd ++ rest
    → length buffer < length (request_bytes cmd)
    → (parse_resp buffer).bytes_consumed ≡ 0
parse_resp_pending cmd buffer more rest r h l =
    elim (Bool-cases (ltb 0 (parse_resp buffer).bytes_consumed)) [
      | inr none_consumed ↦ ground (arith, none_consumed)
      | inl some_consumed ↦
          let (same, _, _) = parse_resp-append buffer more (ground (arith, some_consumed)) in
          let whole = parse_resp-request_bytes cmd rest r in
          let consumed : (parse_resp buffer).bytes_consumed ≡ length (request_bytes cmd) =
            ap (λ (p : RespParseResult). p.bytes_consumed) (sym same ∙ ap parse_resp h ∙ whole) in
          absurd (omega (arith, consumed, parse_resp_consumed buffer))
    ]

-- What is left in the buffer of the requests that are still to come.
unfoldable pub IsPending : Bytes → List RespCommand → Type 0
IsPending b [] = b ≡ []
IsPending b (cmd ∷ cmds) = length b < length (request_bytes cmd)

pub pending_fits :
    (b : Bytes) (cmds : List RespCommand)
    → All IsRequest cmds
    → IsPending b cmds
    → length b ≤ max_resp_frame_bytes
unfolding IsPending
pending_fits b [] r p = rw p (omega arith)
pending_fits b (cmd ∷ cmds) r p = omega (arith, r.0.fits)

pub request_bytes_nonzero : (cmd : RespCommand) → nat_eqb (length (request_bytes cmd)) 0 ≡ false
unfolding request_bytes
request_bytes_nonzero cmd = ground arith

pub request_bytes_pos : (cmd : RespCommand) → 0 < length (request_bytes cmd)
unfolding request_bytes
request_bytes_pos cmd = omega arith

pub nothing-IsPending : (b : Bytes) (cmds : List RespCommand) → b ≡ [] → IsPending b cmds
unfolding IsPending
nothing-IsPending b [] e = e
nothing-IsPending b (cmd ∷ cmds) e = rw e (request_bytes_pos cmd)

pub requests_bytes_lem :
    (cmd : RespCommand) (cmds : List RespCommand)
    → requests_bytes (cmd ∷ cmds) ≡ request_bytes cmd ++ requests_bytes cmds
unfolding requests_bytes
requests_bytes_lem cmd cmds = refl

-- When everything has come, nothing is pending.
pub nothing_left :
    (b : Bytes) (cmds : List RespCommand)
    → b ++ [] ≡ requests_bytes cmds
    → IsPending b cmds
    → (b ≡ []) × (cmds ≡ [])
unfolding IsPending requests_bytes
nothing_left b [] h p = (p, refl)
nothing_left b (cmd ∷ cmds) h p = absurd (
    omega (
      arith,
      ap length h,
      length-append b [],
      length-append (request_bytes cmd) (requests_bytes cmds),
    ))

pub append_empty : (a b : Bytes) → a ++ b ≡ requests_bytes [] → a ≡ []
unfolding requests_bytes
append_empty [] b h = refl
append_empty (x ∷ a) b h = cc

-- The parser finds no command.
abbrev pub idle : Bytes → Bool
idle b = is_empty (parse_resp b).command.name || nat_eqb (parse_resp b).bytes_consumed 0

pub idle_empty : idle [] ≡ true
unfolding parse_resp
idle_empty = refl
