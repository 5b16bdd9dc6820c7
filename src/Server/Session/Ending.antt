-- ===== src/Server/Session/Ending.antt =====
-- The loops of a connection end on any bytes, malformed ones included.
use distributed_cache.Prelude.{
  ℕ, zero, suc, ◌+◌, ◌-◌, ◌*◌, ◌^◌, ◌<◌, ◌≤◌, Bytes, is_empty, codes, nat_eqb, ltb, ◌≡◌, refl, ap,
  ◌∙◌, ◌||◌, Option, some, List, [], ◌∷◌, ◌++◌, length, length-append, length-drop, drop, arith,
  Bool-cases, ◌⊎◌, inl, inr,
}
use mathlib.Core.Path.{subst}
use distributed_cache.Core.Store.{entries}
use distributed_cache.Core.Capacity.Loops.{IsReady}
use distributed_cache.Protocol.Resp.{RespCommand, parse_resp}
use distributed_cache.Protocol.Resp.Streaming.{parse_resp_consumed}
use distributed_cache.Metrics.{Double, increment_counter}
use distributed_cache.Server.Dispatcher.Totality.{execute_command-Gives}
use distributed_cache.Server.Session.{
  max_resp_frame_bytes, RecvResult, chunk, closed, interrupted, timed_out, failed, Environment,
  Served, Session, LoopEnd, goes_on, returned, checked, replied, perform, drain, refuse_frame,
  on_recv, handle_resp_client,
}
use distributed_cache.Server.Session.Streams.{stream}

-- An event adds its bytes.
length-stream :
    (e : RecvResult) (rs : List RecvResult)
    → length (stream (e ∷ rs)) ≡ length (stream (e ∷ [])) + length (stream rs)
unfolding stream
length-stream (chunk bytes now) rs =
    omega (arith, length-append bytes (stream rs), length-append bytes [])
length-stream closed rs = omega arith
length-stream interrupted rs = omega arith
length-stream failed rs = omega arith
length-stream (timed_out now) rs = omega arith

module _ {ℓ} {W : Type ℓ} ⦃d : Double W⦄ (env : Environment) where
  -- The entries of the store and the bytes of the buffer.
  abbrev load : Session W → ℕ
  load s = entries s.served.store + length s.buffer

  -- A loop that goes on leaves a store that is ready, and has not added to the load.
  abbrev Keeps : ℕ → LoopEnd W → Type 0
  Keeps m (goes_on t) = IsReady env.hash t.served.store × (load t ≤ m)
  Keeps m (returned t) = Unit

  record Ends (m : ℕ) (r : Option (LoopEnd W)) : Type ℓ where
    end : LoopEnd W
    ends : r ≡ some end
    keeps : Keeps m end

  record Performs (v : Served W) (r : Option (Served W × Bytes)) : Type ℓ where
    next : Served W
    reply : Bytes
    ends : r ≡ some (next, reply)
    ready : IsReady env.hash next.store
    grows : entries next.store ≤ entries v.store + 1

  perform-Performs :
      (cmd : RespCommand) (v : Served W)
      → IsReady env.hash v.store
      → entries v.store + 1 < 2 ^ 64
      → Performs v (perform env cmd v)
  unfolding perform
  perform-Performs cmd v r h =
      let g =
        execute_command-Gives env.hash (env.readings (2 * v.executed))
          (env.readings (2 * v.executed + 1)) v.store r cmd h in
      record {
        next = record v {
          store = g.store;
          metrics =
              increment_counter (codes "cache_resp_requests_total") d.one
                (codes "Total RESP requests") v.metrics;
          executed = v.executed + 1;
        };
        reply = g.result;
        ends = rw (perform, g.ends) refl;
        ready = g.ready;
        grows = g.grows;
      }

  drain-Ends :
      (fuel m : ℕ) (s : Session W)
      → length s.buffer < fuel
      → IsReady env.hash s.served.store
      → load s ≤ m
      → m < 2 ^ 64
      → Ends m (drain env fuel s)
  unfolding drain
  drain-Ends zero m s l r h k = absurd (omega arith)
  drain-Ends (suc fuel) m s l r h k = elim (Bool-cases (env.stop s.checks)) [
    | inl stops ↦ record {
      end = goes_on (checked s);
      ends = rw (drain, stops) refl;
      keeps = (r, h);
    }
    | inr runs ↦
        let parsed = parse_resp s.buffer in
        elim (Bool-cases (is_empty parsed.command.name || nat_eqb parsed.bytes_consumed 0)) [
          | inl idle ↦ record {
            end = goes_on (checked s);
            ends = rw (drain, runs, idle) refl;
            keeps = (r, h);
          }
          | inr command ↦
              let some_bytes : 0 < parsed.bytes_consumed = ground (arith, command) in
              let consumed = parse_resp_consumed s.buffer in
              let left = drop parsed.bytes_consumed s.buffer in
              let shorter = length-drop parsed.bytes_consumed s.buffer in
              let p = perform-Performs parsed.command s.served r (omega arith) in
              let next = record (checked s) { served = replied p.reply p.next; buffer = left } in
              elim (Bool-cases (env.sends s.served.executed)) [
                | inr broken ↦ record {
                  end = returned (record (checked s) { served = p.next });
                  ends = rw (drain, runs, command, p.ends, broken) refl;
                  keeps = tt;
                }
                | inl sent ↦ elim (Bool-cases (is_empty left)) [
                  | inl all ↦ record {
                    end = goes_on next;
                    ends = rw (drain, runs, command, p.ends, sent, all) refl;
                    keeps = (p.ready, omega (arith, p.grows, shorter));
                  }
                  | inr more ↦
                      let ih =
                        drain-Ends fuel m next (omega (arith, shorter)) p.ready
                          (omega (arith, p.grows, shorter)) k in
                      record {
                        end = ih.end;
                        ends = rw (drain, runs, command, p.ends, sent, more) ih.ends;
                        keeps = ih.keeps;
                      }
                ]
              ]
        ]
  ]

  -- What a round makes of the end of the inner loop.
  after_drain :
      (bytes : Bytes) (now m : ℕ) (s : Session W) (e : LoopEnd W)
      → drain env
          (suc (length (s.buffer ++ bytes)))
          (record s { buffer = s.buffer ++ bytes; last_activity = now })
        ≡ some e
      → Keeps m e
      → Ends m (on_recv env (chunk bytes now) s)
  unfolding on_recv
  after_drain bytes now m s (returned t) e k = record {
    end = returned t;
    ends = rw (on_recv, e) refl;
    keeps = tt;
  }
  after_drain bytes now m s (goes_on t) e k =
      elim (Bool-cases (ltb max_resp_frame_bytes (length t.buffer))) [
        | inl long ↦ record {
          end = returned (refuse_frame env t);
          ends = rw (on_recv, e, long) refl;
          keeps = tt;
        }
        | inr fits ↦ record { end = goes_on t; ends = rw (on_recv, e, fits) refl; keeps = k }
      ]

  on_chunk-Ends :
      (bytes : Bytes) (now m : ℕ) (s : Session W)
      → IsReady env.hash s.served.store
      → load s + length bytes ≤ m
      → m < 2 ^ 64
      → Ends m (on_recv env (chunk bytes now) s)
  unfolding on_recv
  on_chunk-Ends bytes now m s r h k =
      let filled = record s { buffer = s.buffer ++ bytes; last_activity = now } in
      let dr =
        drain-Ends (suc (length filled.buffer)) m filled (omega arith) r
          (omega (arith, length-append s.buffer bytes)) k in
      after_drain bytes now m s dr.end dr.ends dr.keeps

  on_recv-Ends :
      (e : RecvResult) (m : ℕ) (s : Session W)
      → IsReady env.hash s.served.store
      → load s + length (stream (e ∷ [])) ≤ m
      → m < 2 ^ 64
      → Ends m (on_recv env e s)
  unfolding on_recv stream
  on_recv-Ends (chunk bytes now) m s r h k =
      on_chunk-Ends bytes now m s r (omega (arith, h, length-append bytes [])) k
  on_recv-Ends closed m s r h k = record { end = returned s; ends = refl; keeps = tt }
  on_recv-Ends interrupted m s r h k = record {
    end = goes_on s;
    ends = refl;
    keeps = (r, omega (arith, h));
  }
  on_recv-Ends failed m s r h k = record { end = returned s; ends = refl; keeps = tt }
  on_recv-Ends (timed_out now) m s r h k =
      elim (Bool-cases (ltb env.idle_timeout (now - s.last_activity))) [
        | inl idle ↦ record { end = returned s; ends = rw (on_recv, idle) refl; keeps = tt }
        | inr soon ↦ record {
          end = goes_on s;
          ends = rw (on_recv, soon) refl;
          keeps = (r, omega (arith, h));
        }
      ]

  end_cases :
      (e : LoopEnd W) → ((t : Session W) × (e ≡ returned t)) ⊎ ((t : Session W) × (e ≡ goes_on t))
  end_cases (returned t) = inl (t, refl)
  end_cases (goes_on t) = inr (t, refl)

  -- Whatever `recv` returns, malformed and endless requests included, the loop of a connection handles it
  -- and gets to its next call of `recv`, or returns: on a valid store without an entry under the empty key,
  -- whose entries and the bytes that arrive are fewer than 2^64 together.
  pub handle_resp_client_ends :
      (rs : List RecvResult) (s : Session W)
      → IsReady env.hash s.served.store
      → entries s.served.store + length s.buffer + length (stream rs) < 2 ^ 64
      → (e : LoopEnd W) × (handle_resp_client env rs s ≡ some e)
  unfolding handle_resp_client stream
  handle_resp_client_ends [] s r h = (goes_on s, refl)
  handle_resp_client_ends (e ∷ rs) s r h = elim (Bool-cases (env.stop s.checks)) [
    | inl stops ↦ (returned (checked s), rw (handle_resp_client, stops) refl)
    | inr runs ↦
        let m = load s + length (stream (e ∷ [])) in
        let split = length-stream e rs in
        let one = on_recv-Ends e m (checked s) r (omega arith) (omega (arith, split)) in
        elim (end_cases one.end) [
          | inl (t, back) ↦
              (returned t, rw (handle_resp_client, runs, one.ends ∙ ap (λ x. some x) back) refl)
          | inr (t, on) ↦
              let kept : Keeps m (goes_on t) = subst (Keeps m) on one.keeps in
              let (last, ends) =
                handle_resp_client_ends rs t kept.0 (omega (arith, split, kept.1)) in
              (last, rw (handle_resp_client, runs, one.ends ∙ ap (λ x. some x) on) ends)
        ]
  ]
