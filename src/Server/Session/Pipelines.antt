-- ===== src/Server/Session/Pipelines.antt =====
-- The inner loop on whole requests and the beginning of one.
use distributed_cache.Prelude.{
  ℕ, zero, suc, ◌<◌, Bytes, is_empty, is_empty→eq, nat_eqb, ltb, ◌≡◌, inl, inr, refl, ap, ◌∙◌, true,
  false, ◌||◌, Option, none, some, List, [], ◌∷◌, ◌++◌, length, length-append, drop, drop-append,
  All, arith, Bool-cases, Option-cases, if◌then◌else◌,
}
use distributed_cache.Protocol.Resp.{RespCommand, parse_resp}
use distributed_cache.Metrics.{Double}
use distributed_cache.Server.Session.{
  Environment, Served, Session, LoopEnd, goes_on, checked, replied, perform, drain,
}
use distributed_cache.Server.Session.Requests.{
  request_bytes, requests_bytes, IsRequest, split_prefix, parse_resp-request_bytes,
  parse_resp_pending, IsPending, request_bytes_nonzero, request_bytes_pos, nothing-IsPending,
  requests_bytes_lem, append_empty, idle, idle_empty,
}

module _ {ℓ} {W : Type ℓ} ⦃d : Double W⦄ (env : Environment) where
  -- The commands one after the other, with no connection between: what the clients are promised.
  unfoldable pub serve : List RespCommand → Served W → Option (Served W)
  serve [] v = some v
  serve (cmd ∷ cmds) v = elim (perform env cmd v) [
    | none ↦ none
    | some (w, reply) ↦ serve cmds (replied reply w)
  ]

  serve_first :
      (cmd : RespCommand) (cmds : List RespCommand) (v w : Served W)
      → serve (cmd ∷ cmds) v ≡ some w
      → (u : Served W) × (reply : Bytes) × (perform env cmd v ≡ some (u, reply))
        × (serve cmds (replied reply u) ≡ some w)
  unfolding serve
  serve_first cmd cmds v w e = elim (Option-cases (perform env cmd v)) [
    | inl out ↦ absurd (ground (arith, e, out))
    | inr ((u, reply), found) ↦ (u, reply, found, ground (arith, e, found))
  ]

  -- The state of a connection whose peer has still to send `more` of the requests, and was last heard
  -- at `since`.
  pub record Awaits (cmds : List RespCommand) (more : Bytes) (since : ℕ) (w : Served W)
      (s : Session W) : Type ℓ where
    pub requests : All IsRequest cmds
    pub stream : s.buffer ++ more ≡ requests_bytes cmds
    pub heard : s.last_activity ≡ since
    pub serves : serve cmds s.served ≡ some w

  pub record Drained (more : Bytes) (since : ℕ) (w : Served W) (r : Option (LoopEnd W))
      : Type ℓ where
    pub session : Session W
    pub left : List RespCommand
    pub ends : r ≡ some (goes_on session)
    pub awaits : Awaits left more since w session
    pub pending : IsPending session.buffer left

  module _ (runs : (n : ℕ) → env.stop n ≡ false) (sends : (n : ℕ) → env.sends n ≡ true) where
    drain_nothing :
        (fuel : ℕ) (s : Session W)
        → (is_empty (parse_resp s.buffer).command.name
            || nat_eqb (parse_resp s.buffer).bytes_consumed 0)
          ≡ true
        → drain env (suc fuel) s ≡ some (goes_on (checked s))
    unfolding drain
    drain_nothing fuel s h = rw (drain, runs s.checks, h) refl

    drain_one :
        (fuel : ℕ) (s : Session W) (u : Served W) (reply : Bytes) (cmd : RespCommand) (left : Bytes)
        → IsRequest cmd
        → s.buffer ≡ request_bytes cmd ++ left
        → perform env cmd s.served ≡ some (u, reply)
        → let next = record (checked s) { served = replied reply u; buffer = left } in
          drain env (suc fuel) s
          ≡ (if is_empty left then some (goes_on next) else drain env fuel next)
    unfolding drain
    drain_one fuel s u reply cmd left r b e =
        let parsed = ap parse_resp b ∙ parse_resp-request_bytes cmd left r in
        let dropped : drop (length (request_bytes cmd)) s.buffer ≡ left =
          ap (drop (length (request_bytes cmd))) b ∙ drop-append (request_bytes cmd) left in
        rw
          (
            drain,
            runs s.checks,
            parsed,
            r.named,
            request_bytes_nonzero cmd,
            e,
            sends s.served.executed,
            parsed,
            dropped,
          )
          refl

    -- The inner loop serves what is there, and leaves the beginning of a request.
    pub drain-Drained :
        (fuel : ℕ) (cmds : List RespCommand) (more : Bytes) (since : ℕ) (w : Served W)
        (s : Session W)
        → length s.buffer < fuel
        → Awaits cmds more since w s
        → Drained more since w (drain env fuel s)
    unfolding IsPending
    drain-Drained zero cmds more since w s l a = absurd (omega arith)
    drain-Drained (suc fuel) [] more since w s l a =
        let empty : s.buffer ≡ [] = append_empty s.buffer more a.stream in
        record {
          session = checked s;
          left = [];
          ends = drain_nothing fuel s (ap idle empty ∙ idle_empty);
          awaits = record {
            requests = a.requests;
            stream = a.stream;
            heard = a.heard;
            serves = a.serves;
          };
          pending = empty;
        }
    drain-Drained (suc fuel) (cmd ∷ cmds) more since w s l a =
        elim (Bool-cases (ltb (length s.buffer) (length (request_bytes cmd)))) [
          | inl missing ↦
              let waits : length s.buffer < length (request_bytes cmd) = ground (arith, missing) in
              let none_consumed =
                parse_resp_pending cmd s.buffer more (requests_bytes cmds) a.requests.0
                  (a.stream ∙ requests_bytes_lem cmd cmds) waits in
              record {
                session = checked s;
                left = cmd ∷ cmds;
                ends = drain_nothing fuel s (ground (arith, none_consumed));
                awaits = record {
                  requests = a.requests;
                  stream = a.stream;
                  heard = a.heard;
                  serves = a.serves;
                };
                pending = waits;
              }
          | inr there ↦
              let (rest, split, stream) =
                split_prefix (request_bytes cmd) s.buffer more (requests_bytes cmds)
                  (a.stream ∙ requests_bytes_lem cmd cmds) (ground (arith, there)) in
              let (u, reply, done, serves) = serve_first cmd cmds s.served w a.serves in
              let next = record (checked s) { served = replied reply u; buffer = rest } in
              let awaits : Awaits cmds more since w next = record {
                requests = a.requests.1;
                stream = stream;
                heard = a.heard;
                serves = serves;
              } in
              let one = drain_one fuel s u reply cmd rest a.requests.0 split done in
              let shorter : length rest < fuel = omega (
                arith,
                ap length split,
                length-append (request_bytes cmd) rest,
                request_bytes_pos cmd,
              ) in
              let ih = drain-Drained fuel cmds more since w next shorter awaits in
              elim (Bool-cases (is_empty rest)) [
                | inl all ↦ record {
                  session = next;
                  left = cmds;
                  ends = one ∙ rw all refl;
                  awaits = awaits;
                  pending = nothing-IsPending rest cmds (is_empty→eq rest all);
                }
                | inr some_left ↦ record {
                  session = ih.session;
                  left = ih.left;
                  ends = one ∙ rw some_left ih.ends;
                  awaits = ih.awaits;
                  pending = ih.pending;
                }
              ]
        ]
