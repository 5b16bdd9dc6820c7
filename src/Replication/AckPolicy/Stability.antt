-- ===== src/Replication/AckPolicy/Stability.antt =====
-- Acknowledgements are never taken back.
use distributed_cache.Prelude.{
  ℕ, ◌≡◌, nat_key, true, some, List, [], ◌∷◌, ◌++◌, leb, ◌&&◌, arith, inl, inr, length,
  length-append, Option-cases, Result-cases, returns,
}
use distributed_cache.Prelude.Map.{lookup, lookup-insert}
use distributed_cache.Replication.Wal.{Mutation, append}
use distributed_cache.Replication.Stream.{ReplicaStream, ack_replica, has_quorum, ack_count_mono}
use distributed_cache.Replication.AckPolicy.{
  WriteAckMode, fast_leader_commit, strong_replica_quorum, AckPolicy, Call, applies, observes,
  new_policy, has_replica_quorum, apply_write, note_ack, observe_replica_ack, step, run, is_fast,
  is_strong,
}
use distributed_cache.Replication.AckPolicy.Durability.{
  IsConsistent, new_policy-IsConsistent, step-IsConsistent, run-IsConsistent, ack,
}

apply_write_keeps :
    (k : ℕ) (mutation : Mutation) (mode : WriteAckMode) (p : AckPolicy) (i : ℕ)
    → IsConsistent k p
    → lookup i p.acked ≡ some true
    → lookup i (apply_write mutation mode p).0.acked ≡ some true
unfolding apply_write append is_fast is_strong
apply_write_keeps k mutation mode p i v h =
    let n = length (p.wal.entries ++ mutation ∷ []) in
    let (m, known) = v.has_mode i true h in
    ground (
      arith,
      h,
      v.in_log i m known,
      length-append p.wal.entries (mutation ∷ []),
      lookup-insert n i (ack mutation mode p) p.acked,
    )

note_ack_keeps :
    (k r j : ℕ) (mode : WriteAckMode) (t : ReplicaStream) (p : AckPolicy) (i : ℕ)
    → IsConsistent k p
    → lookup j p.write_modes ≡ some mode
    → ack_replica r j p.replica_stream ≡ returns t
    → lookup i p.acked ≡ some true
    → lookup i (note_ack j mode t p).acked ≡ some true
unfolding note_ack has_replica_quorum has_quorum
note_ack_keeps k r j fast_leader_commit t p i v known e h = h
note_ack_keeps k r j strong_replica_quorum t p i v known e h =
    let b = leb j p.wal.commit_index && has_replica_quorum j t in
    ground (
      arith,
      known,
      h,
      v.committed,
      lookup-insert j i b p.acked,
      v.in_log j strong_replica_quorum known,
      v.strong_held j known,
      ack_count_mono r j j p.replica_stream t v.sound e,
    )

observe_replica_ack_keeps :
    (k r j : ℕ) (p : AckPolicy) (i : ℕ)
    → IsConsistent k p
    → lookup i p.acked ≡ some true
    → lookup i (observe_replica_ack r j p).0.acked ≡ some true
unfolding observe_replica_ack
observe_replica_ack_keeps k r j p i v h = elim (Option-cases (lookup j p.write_modes)) [
  | inl unknown ↦ rw (unknown, observe_replica_ack) h
  | inr (mode, known) ↦ elim (Result-cases (ack_replica r j p.replica_stream)) [
    | inl (x, refused) ↦ rw (known, refused, observe_replica_ack) h
    | inr (t, taken) ↦
        rw (known, taken, observe_replica_ack) (note_ack_keeps k r j mode t p i v known taken h)
  ]
]

step_keeps :
    (k : ℕ) (c : Call) (p : AckPolicy) (i : ℕ)
    → IsConsistent k p
    → lookup i p.acked ≡ some true
    → lookup i (step c p).acked ≡ some true
unfolding step
step_keeps k (applies mutation mode) p i v h = apply_write_keeps k mutation mode p i v h
step_keeps k (observes r j) p i v h = observe_replica_ack_keeps k r j p i v h

run_keeps :
    (k : ℕ) (cs : List Call) (p : AckPolicy) (i : ℕ)
    → IsConsistent k p
    → lookup i p.acked ≡ some true
    → lookup i (run cs p).acked ≡ some true
unfolding run
run_keeps k [] p i v h = h
run_keeps k (c ∷ cs) p i v h =
    run_keeps k cs (step c p) i (step-IsConsistent k c p v) (step_keeps k c p i v h)

-- An acknowledgement is never taken back: what is acknowledged after some calls on a new policy is so
-- after any further calls.
pub acked_stays :
    (n : ℕ) (cs later : List Call) (i : ℕ)
    → lookup i (run cs (new_policy n)).acked ≡ some true
    → lookup i (run later (run cs (new_policy n))).acked ≡ some true
acked_stays n cs later i h =
    run_keeps n later (run cs (new_policy n)) i
      (run-IsConsistent n cs (new_policy n) (new_policy-IsConsistent n)) h
