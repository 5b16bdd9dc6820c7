-- ===== src/Control/Raft/Stability.antt =====
-- On leaders that stay alive, between elections and in them.
use distributed_cache.Prelude.{
  Bytes, bytes_key, bytes_eqb, ◌≡◌, ◌≢◌, refl, Bool, true, not, some, List, [], ◌∷◌, arith,
}
use distributed_cache.Prelude.Map.{Map, lookup, insert, lookup-insert}
use distributed_cache.Control.Heartbeat.{HeartbeatManager, is_alive}
use distributed_cache.Control.Heartbeat.Liveness.{is_empty_named}
use distributed_cache.Control.Raft.{
  ShardMetadata, RaftMetadataAdapter, new_adapter, renew_leader, renew_leaders,
  adapter_register_node, adapter_record_heartbeat, add_shard, leader_for_shard,
  adapter_on_heartbeat_timeout, adapter_ingest_gossip,
}
use distributed_cache.Control.Raft.Leaders.{
  Call, registers, heartbeats, times_out, gossips, adds_shard, step, run, leader_for_shard_found,
}

lookup-renew_leaders :
    (h : HeartbeatManager) (k : Bytes) (s : ShardMetadata) (m : Map Bytes ShardMetadata)
    → lookup k m ≡ some s
    → lookup k (renew_leaders h m) ≡ some (renew_leader h s)
unfolding lookup renew_leaders
lookup-renew_leaders h k s [] e = cc
lookup-renew_leaders h k s (p ∷ m) e = ground (arith, e, lookup-renew_leaders h k s m)

renew_leader_alive :
    (h : HeartbeatManager) (s : ShardMetadata)
    → s.leader ≢ []
    → is_alive s.leader h ≡ true
    → renew_leader h s ≡ s
unfolding renew_leader
renew_leader_alive h s n t = rw (is_empty_named s.leader n, t) refl

-- The call does not replace the shard.
abbrev pub spares : Bytes → Call → Bool
spares k (registers j t) = true
spares k (heartbeats j t) = true
spares k (times_out j t) = true
spares k (gossips os) = true
spares k (adds_shard j rs) = not (bytes_eqb j k)

insert_elsewhere :
    (j k : Bytes) (s t : ShardMetadata) (m : Map Bytes ShardMetadata)
    → not (bytes_eqb j k) ≡ true
    → lookup k m ≡ some s
    → lookup k (insert j t m) ≡ some s
insert_elsewhere j k s t m p found = ground (arith, lookup-insert j k t m)

step-lookup :
    (c : Call) (k : Bytes) (s : ShardMetadata) (a : RaftMetadataAdapter)
    → spares k c ≡ true
    → s.leader ≢ []
    → is_alive s.leader (step c a).heartbeat ≡ true
    → lookup k a.shards ≡ some s
    → lookup k (step c a).shards ≡ some s
unfolding step adapter_register_node adapter_record_heartbeat add_shard adapter_on_heartbeat_timeout
    adapter_ingest_gossip
step-lookup (registers j t) k s a p n alive found = found
step-lookup (heartbeats j t) k s a p n alive found = found
step-lookup (times_out j t) k s a p n alive found =
    rw (lookup-renew_leaders _ k s a.shards found, renew_leader_alive _ s n alive) refl
step-lookup (gossips os) k s a p n alive found =
    rw (lookup-renew_leaders _ k s a.shards found, renew_leader_alive _ s n alive) refl
step-lookup (adds_shard j rs) k s a p n alive found = insert_elsewhere j k s _ a.shards p found

-- Any call but one that adds the same shard again leaves a shard to its leader, where the leader is a
-- node whose name is not empty and which is alive after the call.
pub leader_for_shard_stays :
    (cs : List Call) (c : Call) (shard_id : Bytes) (s : ShardMetadata)
    → let a = run cs new_adapter in
      lookup shard_id a.shards ≡ some s
      → spares shard_id c ≡ true
      → s.leader ≢ []
      → is_alive s.leader (step c a).heartbeat ≡ true
      → leader_for_shard shard_id (step c a) ≡ leader_for_shard shard_id a
leader_for_shard_stays cs c k s found p n alive =
    let a = run cs new_adapter in
    rw
      (
        leader_for_shard_found k s a found,
        leader_for_shard_found k s (step c a) (step-lookup c k s a p n alive found),
      )
      refl
