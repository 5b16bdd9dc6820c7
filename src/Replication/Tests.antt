-- ===== src/Replication/Tests.antt =====
-- The theorems of src/replication at concrete inputs, after tests/replication.
use distributed_cache.Prelude.{
  ◌*◌, ◌<◌, ◌≤◌, ◌≡◌, refl, nat_key, codes, true, some, get_elem?, returns, List, [], ◌∷◌,
}
use distributed_cache.Prelude.Map.{lookup, insert}
use distributed_cache.Replication.Wal.{Mutation, append, entry_at}
use distributed_cache.Replication.Stream.{new_stream, ack_replica, ack_count, has_quorum}
use distributed_cache.Replication.AckPolicy.{
  strong_replica_quorum, fast_leader_commit, Call, applies, observes, new_policy, is_fast,
  is_strong, has_replica_quorum, apply_write, observe_replica_ack, note_ack, step, run,
}
use distributed_cache.Replication.AckPolicy.Log.{written}
use distributed_cache.Replication.AckPolicy.Durability.{acked_strong_majority}
use distributed_cache.Replication.AckPolicy.Stability.{acked_stays}

abbrev greeting : Mutation
greeting = record { key = codes "k"; value = codes "v" }

-- A strong write to three replicas, and two acknowledgements.
abbrev calls : List Call
calls = applies greeting strong_replica_quorum ∷ observes 0 1 ∷ observes 2 1 ∷ []

acked_strong_majority_example :
    let p = run calls (new_policy 3) in
    (m : Mutation) × (get_elem? (greeting ∷ []) 0 ≡ some m)
    × (entry_at 1 p.wal ≡ returns m)
    × (p.wal.entries ≡ greeting ∷ [])
    × (0 < 1)
    × (1 ≤ p.wal.commit_index)
    × (3 < 2 * ack_count 1 p.replica_stream)
    × (0 < 3)
unfolding run step apply_write observe_replica_ack note_ack append new_policy new_stream ack_replica
    has_replica_quorum has_quorum ack_count lookup insert is_fast is_strong written
acked_strong_majority_example = acked_strong_majority 3 calls 1 refl refl

acked_stays_example :
    lookup 1
      (run
        (applies greeting fast_leader_commit ∷ observes 1 1 ∷ [])
        (run calls (new_policy 3))).acked
    ≡ some true
unfolding run step apply_write observe_replica_ack note_ack append new_policy new_stream ack_replica
    has_replica_quorum has_quorum ack_count lookup insert is_fast is_strong
acked_stays_example =
    acked_stays 3 calls (applies greeting fast_leader_commit ∷ observes 1 1 ∷ []) 1 refl
