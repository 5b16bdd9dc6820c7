-- ===== src/Replication/AckPolicy.antt =====
-- src/replication/ack_policy.hpp: which writes are acknowledged. The proofs are in the modules below.
pub mod Log
pub mod Durability
pub mod Stability
use distributed_cache.Prelude.{
  ℕ, Bytes, nat_key, Bool, true, false, ◌&&◌, ◌||◌, Option, none, some, List, [], ◌∷◌, ltb, leb,
  Result, returns, throws, invalid_argument,
}
use distributed_cache.Prelude.Map.{Map, lookup, insert}
use distributed_cache.Replication.Wal.{Mutation, WalWriter, new_wal, append}
use distributed_cache.Replication.Stream.{
  ReplicaStream, new_stream, ack_replica, ack_count, has_quorum,
}

pub data WriteAckMode : Type 0 where
  fast_leader_commit strong_replica_quorum : WriteAckMode

pub record WriteResult : Type 0 where
  pub log_index : ℕ
  pub acked : Bool
  pub leader_commit_index : ℕ
  pub replica_acks : ℕ
  pub required_replica_quorum : ℕ

pub record AckPolicy : Type 0 where
  pub wal : WalWriter
  pub replica_stream : ReplicaStream
  pub write_modes : Map ℕ WriteAckMode
  pub acked : Map ℕ Bool

unfoldable pub new_policy : ℕ → AckPolicy
new_policy replica_count = record {
  wal = new_wal;
  replica_stream = new_stream replica_count;
  write_modes = [];
  acked = [];
}

-- `QuorumSize() > 0 && HasQuorum(log_index)`
unfoldable pub has_replica_quorum : ℕ → ReplicaStream → Bool
has_replica_quorum log_index s = ltb 0 s.quorum_size && has_quorum log_index s

unfoldable pub build_result : ℕ → AckPolicy → WriteResult
build_result log_index p = record {
  log_index = log_index;
  acked = elim (lookup log_index p.acked) [ none ↦ false | some b ↦ b ];
  leader_commit_index = p.wal.commit_index;
  replica_acks = ack_count log_index p.replica_stream;
  required_replica_quorum = p.replica_stream.quorum_size;
}

unfoldable pub is_fast : WriteAckMode → Bool
is_fast fast_leader_commit = true
is_fast strong_replica_quorum = false

unfoldable pub is_strong : WriteAckMode → Bool
is_strong fast_leader_commit = false
is_strong strong_replica_quorum = true

unfoldable pub apply_write : Mutation → WriteAckMode → AckPolicy → AckPolicy × WriteResult
unfolding is_fast is_strong
apply_write mutation mode p =
    let (wal, log_index) = append mutation p.wal in
    let leader_committed = leb log_index wal.commit_index in
    let ack =
      leader_committed
      && (is_fast mode || is_strong mode && has_replica_quorum log_index p.replica_stream) in
    let p' : AckPolicy = record p {
      wal = wal;
      write_modes = insert log_index mode p.write_modes;
      acked = insert log_index ack p.acked;
    } in
    (p', build_result log_index p')

-- The state after an acknowledgement that the stream took.
unfoldable pub note_ack : ℕ → WriteAckMode → ReplicaStream → AckPolicy → AckPolicy
note_ack log_index fast_leader_commit stream p = record p { replica_stream = stream }
note_ack log_index strong_replica_quorum stream p = record p {
  replica_stream = stream;
  acked =
      insert log_index (leb log_index p.wal.commit_index && has_replica_quorum log_index stream)
        p.acked;
}

-- The exceptions come before any change of the state.
unfoldable pub observe_replica_ack : ℕ → ℕ → AckPolicy → AckPolicy × Result WriteResult
unfolding note_ack
observe_replica_ack replica_id log_index p = elim (lookup log_index p.write_modes) [
  | none ↦ (p, throws invalid_argument)
  | some mode ↦ elim (ack_replica replica_id log_index p.replica_stream) [
    | throws e ↦ (p, throws e)
    | returns stream ↦
        let p' = note_ack log_index mode stream p in (p', returns (build_result log_index p'))
  ]
]

-- The calls of a client.
pub data Call : Type 0 where
  applies : Mutation → WriteAckMode → Call
  observes : (replica_id log_index : ℕ) → Call

unfoldable pub step : Call → AckPolicy → AckPolicy
step (applies mutation mode) p = (apply_write mutation mode p).0
step (observes replica_id log_index) p = (observe_replica_ack replica_id log_index p).0

unfoldable pub run : List Call → AckPolicy → AckPolicy
run [] p = p
run (c ∷ cs) p = run cs (step c p)
