-- ===== src/Control/Heartbeat.antt =====
-- src/control/heartbeat_manager.hpp and .cpp. Each method holds the mutex throughout, so it is one
-- step. The proofs are in the modules below.
pub mod Gossip
pub mod Liveness
use distributed_cache.Prelude.{
  ℕ, Bytes, bytes_key, is_empty, Bool, true, false, not, ◌&&◌, ◌||◌, Option, none, some, List, [],
  ◌∷◌, map, ltb, nat_eqb, if◌then◌else◌,
}
use distributed_cache.Prelude.Map.{Map, lookup, insert}

pub record NodeHealth : Type 0 where
  pub node_id : Bytes
  pub alive : Bool
  pub last_heartbeat_ms : ℕ

pub record HeartbeatManager : Type 0 where
  pub nodes : Map Bytes NodeHealth
  pub last_observation_ms : Map Bytes ℕ

abbrev pub new_manager : HeartbeatManager
new_manager = record { nodes = []; last_observation_ms = [] }

-- `nodes_[node_id]` and `last_observation_ms_[node_id]`: a missing entry is made of zeros.
unfoldable pub entry_of : Bytes → HeartbeatManager → NodeHealth
entry_of node_id h = elim (lookup node_id h.nodes) [
  | none ↦ record { node_id = []; alive = false; last_heartbeat_ms = 0 }
  | some e ↦ e
]

unfoldable pub last_observed : Bytes → HeartbeatManager → ℕ
last_observed node_id h = elim (lookup node_id h.last_observation_ms) [ none ↦ 0 | some t ↦ t ]

-- What the two references leave in the maps.
unfoldable pub write_back : Bytes → NodeHealth → ℕ → HeartbeatManager → HeartbeatManager
write_back node_id entry last h = record {
  nodes = insert node_id entry h.nodes;
  last_observation_ms = insert node_id last h.last_observation_ms;
}

-- The bodies of the methods, over the two references.
unfoldable pub record_heartbeat_at : Bytes → ℕ → NodeHealth → ℕ → NodeHealth × ℕ
record_heartbeat_at node_id heartbeat_ms entry last =
    if not (is_empty entry.node_id) && ltb heartbeat_ms last then (entry, last) else (
      record { node_id = node_id; alive = true; last_heartbeat_ms = heartbeat_ms },
      heartbeat_ms,
    )

unfoldable pub on_timeout_at : Bytes → ℕ → NodeHealth → ℕ → NodeHealth × ℕ
on_timeout_at node_id timeout_ms entry last =
    if not (is_empty entry.node_id) && ltb timeout_ms last then (entry, last) else (
      record entry { node_id = node_id; alive = false },
      if ltb last timeout_ms then timeout_ms else last,
    )

unfoldable pub ingest_at : NodeHealth → NodeHealth → ℕ → NodeHealth × ℕ
ingest_at observation entry last =
    if not (is_empty entry.node_id)
      && (ltb observation.last_heartbeat_ms last
          || nat_eqb observation.last_heartbeat_ms last && not entry.alive && observation.alive)
    then (entry, last)
    else (observation, observation.last_heartbeat_ms)

-- Runs a body on the references of a node.
unfoldable pub on_node :
    Bytes → (NodeHealth → ℕ → NodeHealth × ℕ) → HeartbeatManager → HeartbeatManager
on_node node_id body h =
    let (entry, last) = body (entry_of node_id h) (last_observed node_id h) in
    write_back node_id entry last h

unfoldable pub register_node : Bytes → ℕ → HeartbeatManager → HeartbeatManager
register_node node_id heartbeat_ms = on_node node_id (record_heartbeat_at node_id heartbeat_ms)

unfoldable pub record_heartbeat : Bytes → ℕ → HeartbeatManager → HeartbeatManager
record_heartbeat node_id heartbeat_ms = on_node node_id (record_heartbeat_at node_id heartbeat_ms)

unfoldable pub on_heartbeat_timeout : Bytes → ℕ → HeartbeatManager → HeartbeatManager
on_heartbeat_timeout node_id timeout_ms = on_node node_id (on_timeout_at node_id timeout_ms)

unfoldable pub ingest_one : NodeHealth → HeartbeatManager → HeartbeatManager
ingest_one observation = on_node observation.node_id (ingest_at observation)

unfoldable pub ingest_gossip : List NodeHealth → HeartbeatManager → HeartbeatManager
ingest_gossip [] h = h
ingest_gossip (observation ∷ rest) h = ingest_gossip rest (ingest_one observation h)

unfoldable pub get_node_health : Bytes → HeartbeatManager → Option NodeHealth
get_node_health node_id h = lookup node_id h.nodes

unfoldable pub snapshot : HeartbeatManager → List NodeHealth
snapshot h = map (λ p. p.1) h.nodes

unfoldable pub is_alive : Bytes → HeartbeatManager → Bool
is_alive node_id h = elim (lookup node_id h.nodes) [ none ↦ false | some e ↦ e.alive ]
