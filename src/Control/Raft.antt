-- ===== src/Control/Raft.antt =====
-- src/control/raft_metadata_adapter.hpp and .cpp: the shards' leaders, chosen among the nodes that the
-- heartbeats say are alive. A method and its call of the manager are one step. The proofs are in
-- the modules below.
pub mod Leaders
pub mod Stability
use distributed_cache.Prelude.{
  ℕ, Bytes, bytes_key, is_empty, Bool, not, ◌&&◌, Option, none, some, List, [], ◌∷◌, map,
  if◌then◌else◌,
}
use distributed_cache.Prelude.Map.{Map, lookup, insert}
use distributed_cache.Control.Heartbeat.{
  NodeHealth, HeartbeatManager, new_manager, is_alive, register_node, record_heartbeat,
  on_heartbeat_timeout, ingest_gossip, get_node_health,
}

pub record ShardMetadata : Type 0 where
  pub replicas : List Bytes
  pub leader : Bytes

pub record RaftMetadataAdapter : Type 0 where
  pub heartbeat : HeartbeatManager
  pub shards : Map Bytes ShardMetadata

abbrev pub new_adapter : RaftMetadataAdapter
new_adapter = record { heartbeat = new_manager; shards = [] }

-- The loop of `ElectLeaderIfNeeded`: the first candidate that is alive, or the empty name.
unfoldable pub first_alive : HeartbeatManager → List Bytes → Bytes
first_alive h [] = []
first_alive h (candidate ∷ rest) =
    let later = first_alive h rest in if is_alive candidate h then candidate else later

unfoldable pub elect_leader_if_needed : HeartbeatManager → ShardMetadata → ShardMetadata
elect_leader_if_needed h shard = record shard { leader = first_alive h shard.replicas }

-- The body of the loops over the shards.
unfoldable pub renew_leader : HeartbeatManager → ShardMetadata → ShardMetadata
renew_leader h shard =
    if not (is_empty shard.leader) && is_alive shard.leader h
    then shard
    else elect_leader_if_needed h shard

unfoldable pub renew_leaders : HeartbeatManager → Map Bytes ShardMetadata → Map Bytes ShardMetadata
renew_leaders h [] = []
renew_leaders h (p ∷ rest) = (p.0, renew_leader h p.1) ∷ renew_leaders h rest

-- Distinct names from those of the manager's methods, which these call.
unfoldable pub adapter_register_node : Bytes → ℕ → RaftMetadataAdapter → RaftMetadataAdapter
adapter_register_node node_id heartbeat_ms a = record a {
  heartbeat = register_node node_id heartbeat_ms a.heartbeat;
}

unfoldable pub adapter_record_heartbeat : Bytes → ℕ → RaftMetadataAdapter → RaftMetadataAdapter
adapter_record_heartbeat node_id heartbeat_ms a = record a {
  heartbeat = record_heartbeat node_id heartbeat_ms a.heartbeat;
}

unfoldable pub add_shard : Bytes → List Bytes → RaftMetadataAdapter → RaftMetadataAdapter
add_shard shard_id replicas a =
    let metadata =
      elect_leader_if_needed a.heartbeat (record { replicas = replicas; leader = [] }) in
    record a { shards = insert shard_id metadata a.shards }

unfoldable pub leader_for_shard : Bytes → RaftMetadataAdapter → Bytes
leader_for_shard shard_id a = elim (lookup shard_id a.shards) [ none ↦ [] | some s ↦ s.leader ]

unfoldable pub adapter_on_heartbeat_timeout : Bytes → ℕ → RaftMetadataAdapter → RaftMetadataAdapter
adapter_on_heartbeat_timeout node_id timeout_ms a =
    let heartbeat = on_heartbeat_timeout node_id timeout_ms a.heartbeat in
    record { heartbeat = heartbeat; shards = renew_leaders heartbeat a.shards }

unfoldable pub adapter_ingest_gossip : List NodeHealth → RaftMetadataAdapter → RaftMetadataAdapter
adapter_ingest_gossip observations a =
    let heartbeat = ingest_gossip observations a.heartbeat in
    record { heartbeat = heartbeat; shards = renew_leaders heartbeat a.shards }

unfoldable pub adapter_get_node_health : Bytes → RaftMetadataAdapter → Option NodeHealth
adapter_get_node_health node_id a = get_node_health node_id a.heartbeat
