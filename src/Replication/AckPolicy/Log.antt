-- ===== src/Replication/AckPolicy/Log.antt =====
-- What stands in the log after a client's calls.
use distributed_cache.Prelude.{
  ℕ, ◌≡◌, refl, nat_key, List, [], ◌∷◌, ◌++◌, inl, inr, Option-cases, Result-cases, append_assoc,
  sym, ap, ◌∙◌,
}
use distributed_cache.Prelude.Map.{lookup}
use mathlib.Core.List.{append-nil}
use distributed_cache.Replication.Wal.{Mutation, append}
use distributed_cache.Replication.Stream.{ReplicaStream, ack_replica}
use distributed_cache.Replication.AckPolicy.{
  WriteAckMode, fast_leader_commit, strong_replica_quorum, AckPolicy, Call, applies, observes,
  apply_write, note_ack, observe_replica_ack, step, run,
}

-- The mutations of the calls of `ApplyWrite`, in their order.
unfoldable pub written : List Call → List Mutation
written [] = []
written (applies mutation mode ∷ cs) = mutation ∷ written cs
written (observes replica_id log_index ∷ cs) = written cs

entries-note_ack :
    (i : ℕ) (mode : WriteAckMode) (t : ReplicaStream) (p : AckPolicy)
    → (note_ack i mode t p).wal.entries ≡ p.wal.entries
unfolding note_ack
entries-note_ack i fast_leader_commit t p = refl
entries-note_ack i strong_replica_quorum t p = refl

entries-observe_replica_ack :
    (r i : ℕ) (p : AckPolicy) → (observe_replica_ack r i p).0.wal.entries ≡ p.wal.entries
unfolding observe_replica_ack
entries-observe_replica_ack r i p = elim (Option-cases (lookup i p.write_modes)) [
  | inl unknown ↦ rw (unknown, observe_replica_ack) refl
  | inr (mode, known) ↦ elim (Result-cases (ack_replica r i p.replica_stream)) [
    | inl (x, refused) ↦ rw (known, refused, observe_replica_ack) refl
    | inr (t, taken) ↦ rw (known, taken, observe_replica_ack) (entries-note_ack i mode t p)
  ]
]

-- The log has the mutations of all writes.
pub entries-run :
    (cs : List Call) (p : AckPolicy) → (run cs p).wal.entries ≡ p.wal.entries ++ written cs
unfolding run step apply_write append written
entries-run [] p = sym (append-nil p.wal.entries)
entries-run (applies mutation mode ∷ cs) p =
    entries-run cs (apply_write mutation mode p).0
    ∙ append_assoc p.wal.entries (mutation ∷ []) (written cs)
entries-run (observes r i ∷ cs) p =
    entries-run cs (observe_replica_ack r i p).0
    ∙ ap (λ es. es ++ written cs) (entries-observe_replica_ack r i p)
