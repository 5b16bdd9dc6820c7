-- ===== src/Control/Heartbeat/Liveness.antt =====
-- On the times of the observations, and on who is alive after each.
use distributed_cache.Prelude.{
  ℕ, ◌≤◌, Bytes, bytes_key, bytes_eqb, bytes_eqb_iff, Bool-cases, sym, ◌∙◌, is_empty, ◌≡◌, ◌≢◌, ◌⊎◌,
  refl, inl, inr, false, not, ◌&&◌, ◌||◌, List, [], ◌∷◌, arith, ltb, if◌then◌else◌,
}
use distributed_cache.Prelude.Map.{lookup}
use distributed_cache.Control.Heartbeat.{
  NodeHealth, HeartbeatManager, new_manager, entry_of, last_observed, record_heartbeat_at,
  on_timeout_at, ingest_at, on_node, register_node, record_heartbeat, on_heartbeat_timeout,
  ingest_one, ingest_gossip, is_alive,
}
use distributed_cache.Control.Heartbeat.Gossip.{on_node_next}

-- A node that was seen carries its name; one that was not has no time of observation.
abbrev Seen : Bytes → NodeHealth → ℕ → Type 0
Seen k entry last = (entry.node_id ≡ k) ⊎ (last ≡ 0)

pub record IsKnown (h : HeartbeatManager) : Type 0 where
  pub at : (k : Bytes) → Seen k (entry_of k h) (last_observed k h)

-- A body that names the node, and does not go back in time.
record GoesOn (k : Bytes) (body : NodeHealth → ℕ → NodeHealth × ℕ) : Type 0 where
  names : (e : NodeHealth) (t : ℕ) → Seen k e t → Seen k (body e t).0 (body e t).1
  later : (e : NodeHealth) (t : ℕ) → k ≢ [] → Seen k e t → t ≤ (body e t).1

pub is_empty_named : (k : Bytes) → k ≢ [] → is_empty k ≡ false
is_empty_named [] h = absurd (h refl)
is_empty_named (c ∷ cs) h = refl

record_heartbeat_at-GoesOn : (k : Bytes) (t : ℕ) → GoesOn k (record_heartbeat_at k t)
unfolding record_heartbeat_at
record_heartbeat_at-GoesOn k t = record {
  names = λ e u s. ground arith;
  later = λ e u n s. ground (arith, is_empty_named k n);
}

on_timeout_at-GoesOn : (k : Bytes) (t : ℕ) → GoesOn k (on_timeout_at k t)
unfolding on_timeout_at
on_timeout_at-GoesOn k t = record {
  names = λ e u s. ground arith;
  later = λ e u n s. ground (arith, is_empty_named k n);
}

ingest_at-GoesOn : (o : NodeHealth) → GoesOn o.node_id (ingest_at o)
unfolding ingest_at
ingest_at-GoesOn o = record {
  names = λ e u s. ground arith;
  later = λ e u n s. ground (arith, is_empty_named o.node_id n);
}

module _ (k : Bytes) (body : NodeHealth → ℕ → NodeHealth × ℕ) (h : HeartbeatManager)
    (g : GoesOn k body) (v : IsKnown h) where
  on_node-IsKnown : IsKnown (on_node k body h)
  on_node-IsKnown = record {
    at = λ j. ground (
      arith,
      bytes_eqb_iff k j,
      on_node_next k body h j,
      v.at j,
      g.names (entry_of k h) (last_observed k h) (v.at k),
    );
  }

  on_node_later : (j : Bytes) → j ≢ [] → last_observed j h ≤ last_observed j (on_node k body h)
  on_node_later j n = elim (Bool-cases (bytes_eqb k j)) [
    | inl t ↦
        let e = (bytes_eqb_iff k j).0 t in
        ground (
          arith,
          t,
          on_node_next k body h j,
          g.later (entry_of k h) (last_observed k h) (λ q. n (sym e ∙ q)) (v.at k),
          e,
        )
    | inr f ↦ ground (arith, f, on_node_next k body h j)
  ]

ingest_gossip-IsKnown :
    (os : List NodeHealth) (h : HeartbeatManager) → IsKnown h → IsKnown (ingest_gossip os h)
unfolding ingest_gossip ingest_one
ingest_gossip-IsKnown [] h v = v
ingest_gossip-IsKnown (o ∷ os) h v =
    ingest_gossip-IsKnown os (ingest_one o h)
      (on_node-IsKnown o.node_id (ingest_at o) h (ingest_at-GoesOn o) v)

ingest_gossip_later :
    (os : List NodeHealth) (h : HeartbeatManager) (j : Bytes)
    → IsKnown h
    → j ≢ []
    → last_observed j h ≤ last_observed j (ingest_gossip os h)
unfolding ingest_gossip ingest_one
ingest_gossip_later [] h j v n = omega arith
ingest_gossip_later (o ∷ os) h j v n =
    let g = ingest_at-GoesOn o in
    omega (
      arith,
      on_node_later o.node_id (ingest_at o) h g v j n,
      ingest_gossip_later os (ingest_one o h) j (on_node-IsKnown o.node_id (ingest_at o) h g v) n,
    )

-- The calls that observe a node.
pub data Call : Type 0 where
  registers heartbeats times_out : (node_id : Bytes) (ms : ℕ) → Call
  gossips : List NodeHealth → Call

pub step : Call → HeartbeatManager → HeartbeatManager
step (registers k t) h = register_node k t h
step (heartbeats k t) h = record_heartbeat k t h
step (times_out k t) h = on_heartbeat_timeout k t h
step (gossips os) h = ingest_gossip os h

pub run : List Call → HeartbeatManager → HeartbeatManager
run [] h = h
run (c ∷ cs) h = run cs (step c h)

step-IsKnown : (c : Call) (h : HeartbeatManager) → IsKnown h → IsKnown (step c h)
unfolding step register_node record_heartbeat on_heartbeat_timeout
step-IsKnown (registers k t) h v = on_node-IsKnown k _ h (record_heartbeat_at-GoesOn k t) v
step-IsKnown (heartbeats k t) h v = on_node-IsKnown k _ h (record_heartbeat_at-GoesOn k t) v
step-IsKnown (times_out k t) h v = on_node-IsKnown k _ h (on_timeout_at-GoesOn k t) v
step-IsKnown (gossips os) h v = ingest_gossip-IsKnown os h v

step_later :
    (c : Call) (h : HeartbeatManager) (j : Bytes)
    → IsKnown h
    → j ≢ []
    → last_observed j h ≤ last_observed j (step c h)
unfolding step register_node record_heartbeat on_heartbeat_timeout
step_later (registers k t) h j v n = on_node_later k _ h (record_heartbeat_at-GoesOn k t) v j n
step_later (heartbeats k t) h j v n = on_node_later k _ h (record_heartbeat_at-GoesOn k t) v j n
step_later (times_out k t) h j v n = on_node_later k _ h (on_timeout_at-GoesOn k t) v j n
step_later (gossips os) h j v n = ingest_gossip_later os h j v n

pub run-IsKnown : (cs : List Call) (h : HeartbeatManager) → IsKnown h → IsKnown (run cs h)
unfolding run
run-IsKnown [] h v = v
run-IsKnown (c ∷ cs) h v = run-IsKnown cs (step c h) (step-IsKnown c h v)

run_later :
    (cs : List Call) (h : HeartbeatManager) (j : Bytes)
    → IsKnown h
    → j ≢ []
    → last_observed j h ≤ last_observed j (run cs h)
unfolding run
run_later [] h j v n = omega arith
run_later (c ∷ cs) h j v n =
    omega (arith, step_later c h j v n, run_later cs (step c h) j (step-IsKnown c h v) n)

pub new_manager-IsKnown : IsKnown new_manager
unfolding entry_of last_observed lookup
new_manager-IsKnown = record { at = λ k. inr refl }

-- Whatever a new manager is told, and in whatever order, the time of the last observation of a node
-- whose name is not empty never goes back.
pub last_observed_mono :
    (cs later : List Call) (k : Bytes)
    → k ≢ []
    → last_observed k (run cs new_manager) ≤ last_observed k (run later (run cs new_manager))
last_observed_mono cs later k n =
    run_later later (run cs new_manager) k (run-IsKnown cs new_manager new_manager-IsKnown) n

pub is_alive-entry_of : (k : Bytes) (h : HeartbeatManager) → is_alive k h ≡ (entry_of k h).alive
unfolding is_alive entry_of
is_alive-entry_of k h = ground arith

-- After a heartbeat, or a timeout, of a node whose name is not empty, in any state that calls on a new
-- manager reach: the node is alive exactly if it was and the timeout is older than its last
-- observation, or it was or the heartbeat is not older; of every other node nothing changes.
pub is_alive-step :
    (cs : List Call) (k j : Bytes) (t : ℕ)
    → k ≢ []
    → let h = run cs new_manager in
      let stale = ltb t (last_observed k h) in
      (is_alive j (on_heartbeat_timeout k t h)
        ≡ (if bytes_eqb k j then is_alive k h && stale else is_alive j h))
      × (is_alive j (record_heartbeat k t h)
          ≡ (if bytes_eqb k j then is_alive k h || not stale else is_alive j h))
unfolding on_heartbeat_timeout record_heartbeat on_timeout_at record_heartbeat_at
is_alive-step cs k j t n =
    let h = run cs new_manager in
    ground (
      arith,
      is_alive-entry_of k h,
      is_alive-entry_of j h,
      is_alive-entry_of j (on_heartbeat_timeout k t h),
      is_alive-entry_of j (record_heartbeat k t h),
      on_node_next k (on_timeout_at k t) h j,
      on_node_next k (record_heartbeat_at k t) h j,
      is_empty_named k n,
      (run-IsKnown cs new_manager new_manager-IsKnown).at k,
    )
