-- ===== src/Server/Tests/Session.antt =====
-- The theorems of src/server/main.cpp on the arguments and on a connection, at concrete inputs.
use distributed_cache.Prelude.{
  ℕ, ◌+◌, ◌≡◌, refl, codes, true, false, some, List, [], ◌∷◌, length, take, drop, arith,
}
use distributed_cache.Prelude.Decimal.{to_string}
use distributed_cache.Prelude.Map.{lookup}
use distributed_cache.Core.Store.{new_store, entries, find, stripe_for}
use distributed_cache.Core.Store.Threads.{Interleaving-new_store, idle}
use distributed_cache.Core.Capacity.Loops.{IsReady}
use distributed_cache.Protocol.Resp.{RespCommand, encode_bulk_string}
use distributed_cache.Protocol.Resp.RoundTrip.{encode_request}
use distributed_cache.Metrics.{Double, new_endpoint}
use distributed_cache.Server.Args.{default_options, accepted, parse_args}
use distributed_cache.Server.Args.Accepted.{IsAccepted, parse_args-IsAccepted}
use distributed_cache.Server.Args.Rendering.{render_args, parse_args-render_args}
use distributed_cache.Server.Session.{
  RecvResult, chunk, interrupted, timed_out, Environment, Session, goes_on, handle_resp_client,
}
use distributed_cache.Server.Session.Requests.{request_bytes, requests_bytes, IsRequest}
use distributed_cache.Server.Session.Pipelines.{serve}
use distributed_cache.Server.Session.Streams.{stream, StaysOpen, handle_resp_client-serve}
use distributed_cache.Server.Session.Sending.{
  SendResult, took, interrupted_send, NeverBreaks, taken, send_all, send_all_ends,
}
use distributed_cache.Server.Session.{LoopEnd, closed}
use distributed_cache.Server.Session.Ending.{handle_resp_client_ends}

parse_args-IsAccepted_example : IsAccepted default_options
unfolding parse_args
parse_args-IsAccepted_example = parse_args-IsAccepted [] default_options refl

parse_args-render_args_example : parse_args (render_args default_options) ≡ accepted default_options
parse_args-render_args_example =
    parse_args-render_args default_options parse_args-IsAccepted_example

abbrev pieces : List SendResult
pieces = took 2 ∷ interrupted_send ∷ took 9 ∷ []

send_all_ends_example :
    ((send_all pieces (codes "+OK") []).answer ≡ some true)
    × ((send_all pieces (codes "+OK") []).wire ≡ codes "+OK")
unfolding NeverBreaks taken
send_all_ends_example = send_all_ends pieces (codes "+OK") [] tt (omega arith)

-- Some hash, clock and socket; whole numbers stand for the doubles.
abbrev calm : Environment
calm = record {
  hash = λ key. length key;
  readings = λ n. n + 5;
  stop = λ n. false;
  sends = λ n. true;
  idle_timeout = 100;
}

instance abbrev session_double : Double ℕ
session_double = record { zero = 0; one = 1; add = ◌+◌; print = to_string }

abbrev set_k : RespCommand
set_k = record { name = codes "SET"; args = codes "k" ∷ codes "v" ∷ [] }

abbrev get_k : RespCommand
get_k = record { name = codes "GET"; args = codes "k" ∷ [] }

abbrev pipeline : List RespCommand
pipeline = set_k ∷ get_k ∷ []

-- The second chunk begins within the first request.
abbrev arrivals : List RecvResult
arrivals =
    chunk (take 7 (requests_bytes pipeline)) 1
    ∷ interrupted
    ∷ timed_out 50
    ∷ chunk (drop 7 (requests_bytes pipeline)) 60
    ∷ []

abbrev opened : Session ℕ
opened = record {
  served = record { store = new_store 2 2; metrics = new_endpoint ℕ; sent = []; executed = 0 };
  buffer = [];
  last_activity = 0;
  checks = 0;
}

opened-IsReady : IsReady calm.hash (new_store 2 2)
unfolding find stripe_for lookup new_store entries
opened-IsReady = record {
  valid = Interleaving-new_store calm.hash 2 2 idle;
  no_empty_key = refl;
  small = omega arith;
}

set_k-IsRequest : IsRequest set_k
unfolding request_bytes encode_request encode_bulk_string to_string
set_k-IsRequest = record {
  named = refl;
  few = omega arith;
  short = (omega arith, (omega arith, (omega arith, tt)));
  fits = omega arith;
}

get_k-IsRequest : IsRequest get_k
unfolding request_bytes encode_request encode_bulk_string to_string
get_k-IsRequest = record {
  named = refl;
  few = omega arith;
  short = (omega arith, (omega arith, tt));
  fits = omega arith;
}

handle_resp_client-serve_example :
    (t : Session ℕ) × (handle_resp_client calm arrivals opened ≡ some (goes_on t))
    × (serve calm pipeline opened.served ≡ some t.served)
    × (t.buffer ≡ [])
unfolding stream StaysOpen requests_bytes encode_bulk_string to_string entries new_store
handle_resp_client-serve_example =
    handle_resp_client-serve calm (λ n. refl) (λ n. refl) pipeline arrivals opened refl
      (set_k-IsRequest, (get_k-IsRequest, tt)) refl (omega arith, tt) opened-IsReady (omega arith)

-- A request that is malformed, and then the peer closes.
handle_resp_client_ends_example :
    (e : LoopEnd ℕ) × (handle_resp_client calm (chunk (codes "nonsense") 1 ∷ closed ∷ []) opened
      ≡ some e)
unfolding stream entries new_store
handle_resp_client_ends_example =
    handle_resp_client_ends calm (chunk (codes "nonsense") 1 ∷ closed ∷ []) opened opened-IsReady
      (omega arith)
