-- ===== src/Control/Tests.antt =====
-- The theorems of src/control at concrete inputs, and runs of its unit tests, tests/control.
use mathlib.Core.List.Perm
use distributed_cache.Prelude.{
  ◌≤◌, ◌≡◌, ◌⊎◌, refl, Bytes, bytes_key, bytes_eqb, codes, not, ◌&&◌, ◌||◌, true, false, some, List,
  [], ◌∷◌, ltb, if◌then◌else◌,
}
use distributed_cache.Prelude.Map.{lookup, insert}
use distributed_cache.Control.Heartbeat.{
  NodeHealth, new_manager, entry_of, last_observed, write_back, record_heartbeat_at, on_timeout_at,
  ingest_at, on_node, register_node, record_heartbeat, on_heartbeat_timeout, ingest_one,
  ingest_gossip, get_node_health, is_alive,
}
use distributed_cache.Control.Heartbeat.Gossip.{ingest_gossip-perm}
use distributed_cache.Control.Heartbeat.Liveness
use distributed_cache.Control.Heartbeat.Liveness.{last_observed_mono, is_alive-step}
use distributed_cache.Control.Raft.{
  ShardMetadata, new_adapter, first_alive, elect_leader_if_needed, renew_leader, renew_leaders,
  adapter_register_node, add_shard, leader_for_shard, adapter_on_heartbeat_timeout,
  adapter_ingest_gossip,
}
use distributed_cache.Control.Raft.Leaders.{
  Call, registers, times_out, gossips, adds_shard, step, run, has, IsElected, leader_for_shard-run,
  leader_for_shard-IsElected,
}
use distributed_cache.Control.Raft.Stability.{leader_for_shard_stays}

abbrev node_a : Bytes
node_a = codes "node-a"

abbrev node_b : Bytes
node_b = codes "node-b"

abbrev shard_1 : Bytes
shard_1 = codes "shard-1"

abbrev dead_a : NodeHealth
dead_a = record { node_id = node_a; alive = false; last_heartbeat_ms = 250 }

abbrev live_a : NodeHealth
live_a = record { node_id = node_a; alive = true; last_heartbeat_ms = 250 }

ingest_gossip-perm_example :
    (get_node_health node_a (ingest_gossip (dead_a ∷ live_a ∷ []) new_manager)
      ≡ get_node_health node_a (ingest_gossip (live_a ∷ dead_a ∷ []) new_manager))
    × (lookup node_a (ingest_gossip (dead_a ∷ live_a ∷ []) new_manager).last_observation_ms
        ≡ lookup node_a (ingest_gossip (live_a ∷ dead_a ∷ []) new_manager).last_observation_ms)
ingest_gossip-perm_example =
    ingest_gossip-perm (dead_a ∷ live_a ∷ []) (live_a ∷ dead_a ∷ []) new_manager
      (Perm.swap live_a dead_a []) (refl, (refl, tt)) node_a

abbrev seen_a : List Liveness.Call
seen_a = Liveness.registers node_a 100 ∷ Liveness.heartbeats node_a 200 ∷ []

last_observed_mono_example :
    last_observed node_a (Liveness.run seen_a new_manager)
    ≤ last_observed node_a
        (Liveness.run (Liveness.times_out node_a 150 ∷ []) (Liveness.run seen_a new_manager))
last_observed_mono_example =
    last_observed_mono seen_a (Liveness.times_out node_a 150 ∷ []) node_a (λ e. cc)

is_alive-step_example :
    let h = Liveness.run seen_a new_manager in
    let stale = ltb 150 (last_observed node_a h) in
    (is_alive node_b (on_heartbeat_timeout node_a 150 h)
      ≡ (if bytes_eqb node_a node_b then is_alive node_a h && stale else is_alive node_b h))
    × (is_alive node_b (record_heartbeat node_a 150 h)
        ≡ (if bytes_eqb node_a node_b then is_alive node_a h || not stale else is_alive node_b h))
is_alive-step_example = is_alive-step seen_a node_a node_b 150 (λ e. cc)

abbrev two_nodes : List Call
two_nodes =
    registers node_a 100 ∷ registers node_b 100 ∷ adds_shard shard_1 (node_a ∷ node_b ∷ []) ∷ []

abbrev shard_of_b : ShardMetadata
shard_of_b = record { replicas = node_a ∷ node_b ∷ []; leader = node_b }

abbrev shard_of_a : ShardMetadata
shard_of_a = record { replicas = node_a ∷ node_b ∷ []; leader = node_a }

leader_for_shard-run_example :
    let a = run two_nodes new_adapter in
    (leader_for_shard shard_1 a ≡ [])
    ⊎ ((is_alive (leader_for_shard shard_1 a) a.heartbeat ≡ true)
        × ((s : ShardMetadata) × (lookup shard_1 a.shards ≡ some s)
            × (has (leader_for_shard shard_1 a) s.replicas ≡ true)))
leader_for_shard-run_example = leader_for_shard-run two_nodes shard_1

leader_for_shard-IsElected_example :
    let b = step (times_out node_a 200) (run two_nodes new_adapter) in
    IsElected b.heartbeat shard_of_b × (leader_for_shard shard_1 b ≡ node_b)
unfolding run step adapter_register_node add_shard adapter_on_heartbeat_timeout
    elect_leader_if_needed first_alive renew_leaders renew_leader register_node on_heartbeat_timeout
    on_node on_timeout_at record_heartbeat_at write_back entry_of last_observed is_alive lookup
    insert
leader_for_shard-IsElected_example =
    leader_for_shard-IsElected two_nodes (times_out node_a 200) shard_1 shard_of_b refl refl

leader_for_shard_stays_example :
    leader_for_shard shard_1 (step (times_out node_b 200) (run two_nodes new_adapter))
    ≡ leader_for_shard shard_1 (run two_nodes new_adapter)
unfolding run step adapter_register_node add_shard adapter_on_heartbeat_timeout
    elect_leader_if_needed first_alive renew_leaders renew_leader register_node on_heartbeat_timeout
    on_node on_timeout_at record_heartbeat_at write_back entry_of last_observed is_alive lookup
    insert
leader_for_shard_stays_example =
    leader_for_shard_stays two_nodes (times_out node_b 200) shard_1 shard_of_a refl refl (λ e. cc)
      refl

-- LeaderClearsWhenNoHealthyReplica
nobody_left :
    leader_for_shard shard_1
      (run (times_out node_a 200 ∷ times_out node_b 250 ∷ []) (run two_nodes new_adapter))
    ≡ []
unfolding leader_for_shard run step adapter_register_node add_shard adapter_on_heartbeat_timeout
    elect_leader_if_needed first_alive renew_leaders renew_leader register_node on_heartbeat_timeout
    on_node on_timeout_at record_heartbeat_at write_back entry_of last_observed is_alive lookup
    insert
nobody_left = refl

-- GossipRevivesReplicaForNextFailover
revived :
    leader_for_shard shard_1 (
      run
        (times_out node_a 200 ∷ gossips (live_a ∷ []) ∷ times_out node_b 300 ∷ [])
        (run two_nodes new_adapter))
    ≡ node_a
unfolding leader_for_shard run step adapter_register_node add_shard adapter_on_heartbeat_timeout
    adapter_ingest_gossip ingest_gossip ingest_one ingest_at elect_leader_if_needed first_alive
    renew_leaders renew_leader register_node on_heartbeat_timeout on_node on_timeout_at
    record_heartbeat_at write_back entry_of last_observed is_alive lookup insert
revived = refl

-- StaleTimeoutAfterHeartbeatKeepsNodeAlive
stale_timeout :
    is_alive node_a (
      on_heartbeat_timeout node_a 150
        (record_heartbeat node_a 200 (register_node node_a 100 new_manager)))
    ≡ true
unfolding register_node record_heartbeat on_heartbeat_timeout on_node on_timeout_at
    record_heartbeat_at write_back entry_of last_observed is_alive lookup insert
stale_timeout = refl
