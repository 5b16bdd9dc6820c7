-- ===== src/Server/Session/Streams.antt =====
-- On the bytes of requests that `recv` returns in any chunks, with interruptions and time-outs between.
use distributed_cache.Prelude.{
  ℕ, suc, ◌+◌, ◌*◌, ◌-◌, ◌^◌, ◌<◌, ◌≤◌, Bytes, ltb, codes, ◌≡◌, refl, sym, ap, ◌∙◌, true, false,
  some, List, [], ◌∷◌, ◌++◌, length, append_assoc, All, arith,
}
use distributed_cache.Core.Store.{entries}
use distributed_cache.Core.Capacity.Loops.{IsReady}
use distributed_cache.Protocol.Resp.{RespCommand}
use distributed_cache.Metrics.{Double, increment_counter}
use distributed_cache.Server.Dispatcher.Totality.{execute_command-Gives}
use distributed_cache.Server.Session.{
  max_resp_frame_bytes, RecvResult, chunk, closed, interrupted, timed_out, failed, Environment,
  Served, Session, goes_on, checked, replied, perform, on_recv, handle_resp_client,
}
use distributed_cache.Server.Session.Requests.{
  requests_bytes, IsRequest, IsPending, pending_fits, nothing_left, nothing-IsPending,
}
use distributed_cache.Server.Session.Pipelines.{serve, Awaits, Drained, drain-Drained}

-- The bytes that arrive.
unfoldable pub stream : List RecvResult → Bytes
stream [] = []
stream (chunk bytes now ∷ rs) = bytes ++ stream rs
stream (closed ∷ rs) = stream rs
stream (interrupted ∷ rs) = stream rs
stream (timed_out now ∷ rs) = stream rs
stream (failed ∷ rs) = stream rs

-- The peer stays connected, and no time-out falls more than the idle time after it was last heard.
unfoldable pub StaysOpen : (idle_timeout since : ℕ) → List RecvResult → Type 0
StaysOpen idle_timeout since [] = Unit
StaysOpen idle_timeout since (chunk bytes now ∷ rs) = StaysOpen idle_timeout now rs
StaysOpen idle_timeout since (closed ∷ rs) = ⊥
StaysOpen idle_timeout since (interrupted ∷ rs) = StaysOpen idle_timeout since rs
StaysOpen idle_timeout since (timed_out now ∷ rs) =
    (now - since ≤ idle_timeout) × StaysOpen idle_timeout since rs
StaysOpen idle_timeout since (failed ∷ rs) = ⊥

ltb_le : (a b : ℕ) → b ≤ a → ltb a b ≡ false
ltb_le a b h = ground arith

module _ {ℓ} {W : Type ℓ} ⦃d : Double W⦄ (env : Environment) where
  serve_total :
      (cmds : List RespCommand) (v : Served W)
      → IsReady env.hash v.store
      → entries v.store + length cmds < 2 ^ 64
      → (w : Served W) × (serve env cmds v ≡ some w)
  unfolding serve perform
  serve_total [] v r h = (v, refl)
  serve_total (cmd ∷ cmds) v r h =
      let g =
        execute_command-Gives env.hash (env.readings (2 * v.executed))
          (env.readings (2 * v.executed + 1)) v.store r cmd (omega arith) in
      let u = record v {
        store = g.store;
        metrics =
            increment_counter (codes "cache_resp_requests_total") d.one
              (codes "Total RESP requests") v.metrics;
        executed = v.executed + 1;
      } in
      let (w, rest) = serve_total cmds (replied g.result u) g.ready (omega (arith, g.grows)) in
      (w, rw (serve, perform, g.ends) rest)

  module _ (runs : (n : ℕ) → env.stop n ≡ false) (sends : (n : ℕ) → env.sends n ≡ true) where
    -- A round of the outer loop.
    on_chunk :
        (cmds : List RespCommand) (bytes more : Bytes) (now since : ℕ) (w : Served W)
        (s : Session W)
        → Awaits env cmds (bytes ++ more) since w s
        → Drained env more now w (on_recv env (chunk bytes now) s)
    unfolding on_recv
    on_chunk cmds bytes more now since w s a =
        let filled = record s { buffer = s.buffer ++ bytes; last_activity = now } in
        let dr =
          drain-Drained env runs sends (suc (length filled.buffer)) cmds more now w filled
            (omega arith)
            (record {
              requests = a.requests;
              stream = append_assoc s.buffer bytes more ∙ a.stream;
              heard = refl;
              serves = a.serves;
            }) in
        record {
          session = dr.session;
          left = dr.left;
          ends =
              rw
                (
                  on_recv,
                  dr.ends,
                  ltb_le max_resp_frame_bytes _
                      (pending_fits dr.session.buffer dr.left dr.awaits.requests dr.pending),
                )
                refl;
          awaits = dr.awaits;
          pending = dr.pending;
        }

    round :
        (r : RecvResult) (rs : List RecvResult) (s t : Session W)
        → on_recv env r (checked s) ≡ some (goes_on t)
        → handle_resp_client env (r ∷ rs) s ≡ handle_resp_client env rs t
    unfolding handle_resp_client
    round r rs s t e = rw (handle_resp_client, runs s.checks, e) refl

    handle_resp_client-Drained :
        (rs : List RecvResult) (cmds : List RespCommand) (since : ℕ) (w : Served W) (s : Session W)
        → StaysOpen env.idle_timeout since rs
        → Awaits env cmds (stream rs) since w s
        → IsPending s.buffer cmds
        → (last : ℕ) × Drained env [] last w (handle_resp_client env rs s)
    unfolding handle_resp_client stream StaysOpen on_recv
    handle_resp_client-Drained [] cmds since w s o a p =
        (since, record { session = s; left = cmds; ends = refl; awaits = a; pending = p })
    handle_resp_client-Drained (chunk bytes now ∷ rs) cmds since w s o a p =
        let dr = on_chunk cmds bytes (stream rs) now since w (checked s) (record {
          requests = a.requests;
          stream = a.stream;
          heard = a.heard;
          serves = a.serves;
        }) in
        let (last, ih) =
          handle_resp_client-Drained rs dr.left now w dr.session o dr.awaits dr.pending in
        (last, rw (round (chunk bytes now) rs s dr.session dr.ends) ih)
    handle_resp_client-Drained (closed ∷ rs) cmds since w s o a p = absurd o
    handle_resp_client-Drained (interrupted ∷ rs) cmds since w s o a p =
        let (last, ih) =
          handle_resp_client-Drained rs cmds since w (checked s) o
            (record {
              requests = a.requests;
              stream = a.stream;
              heard = a.heard;
              serves = a.serves;
            })
            p in
        (last, rw (round interrupted rs s (checked s) refl) ih)
    handle_resp_client-Drained (timed_out now ∷ rs) cmds since w s o a p =
        let (last, ih) =
          handle_resp_client-Drained rs cmds since w (checked s) o.1
            (record {
              requests = a.requests;
              stream = a.stream;
              heard = a.heard;
              serves = a.serves;
            })
            p in
        let waits : on_recv env (timed_out now) (checked s) ≡ some (goes_on (checked s)) =
          rw (ltb_le env.idle_timeout (now - s.last_activity) (omega (arith, o.0, a.heard))) refl in
        (last, rw (round (timed_out now) rs s (checked s) waits) ih)
    handle_resp_client-Drained (failed ∷ rs) cmds since w s o a p = absurd o

    -- Requests with names, within the limits of the parser and of the buffer, arrive on a connection
    -- whose buffer is empty, cut into chunks anywhere, with interruptions and with time-outs that do not
    -- come later than the idle time after the last chunk; the server is not stopped, the socket takes the
    -- replies, and the store is valid, with nothing under the empty key and room in its counter. Then the
    -- connection stays open with an empty buffer, and the store, the metrics and the replies, in their
    -- order, are those of the commands executed one after the other, which end.
    pub handle_resp_client-serve :
        (cmds : List RespCommand) (rs : List RecvResult) (s : Session W)
        → s.buffer ≡ []
        → All IsRequest cmds
        → stream rs ≡ requests_bytes cmds
        → StaysOpen env.idle_timeout s.last_activity rs
        → IsReady env.hash s.served.store
        → entries s.served.store + length cmds < 2 ^ 64
        → (t : Session W) × (handle_resp_client env rs s ≡ some (goes_on t))
          × (serve env cmds s.served ≡ some t.served)
          × (t.buffer ≡ [])
    unfolding serve
    handle_resp_client-serve cmds rs s empty requests arrives o ready room =
        let (w, serves) = serve_total cmds s.served ready room in
        let (last, dr) =
          handle_resp_client-Drained rs cmds s.last_activity w s o
            (record {
              requests = requests;
              stream = ap (λ (b : Bytes). b ++ stream rs) empty ∙ arrives;
              heard = refl;
              serves = serves;
            })
            (nothing-IsPending s.buffer cmds empty) in
        let (none_kept, all) = nothing_left dr.session.buffer dr.left dr.awaits.stream dr.pending in
        let same : some dr.session.served ≡ some w =
          ap (λ l. serve env l dr.session.served) (sym all) ∙ dr.awaits.serves in
        (dr.session, dr.ends, serves ∙ sym same, none_kept)
