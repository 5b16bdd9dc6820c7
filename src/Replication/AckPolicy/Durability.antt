-- ===== src/Replication/AckPolicy/Durability.antt =====
-- What an acknowledgement means, in every state that a client's calls can reach.
use distributed_cache.Prelude.{
  ℕ, ◌*◌, ◌<◌, ◌≤◌, ◌≡◌, refl, nat_key, nat_eqb_iff, nat_eqb, Bool, true, some, List, [], ◌∷◌, ◌++◌,
  leb, ◌&&◌, ◌||◌, arith, inl, inr, length, length-append, Bool-cases, Option-cases, Result-cases,
  returns, get_elem?, sym, ap, ◌∙◌, ◌-◌,
}
use distributed_cache.Prelude.Map.{lookup, lookup-insert}
use distributed_cache.Replication.Wal.{Mutation, append, entry_at, entry_at_within}
use distributed_cache.Replication.Stream.{
  ReplicaStream, new_stream, ack_replica, ack_count, has_quorum, IsSound, new_stream-IsSound,
  ack_replica-IsSound, ack_count_mono,
}
use distributed_cache.Replication.AckPolicy.Log.{written, entries-run}
use distributed_cache.Replication.AckPolicy.{
  WriteAckMode, fast_leader_commit, strong_replica_quorum, AckPolicy, Call, applies, observes,
  new_policy, has_replica_quorum, apply_write, note_ack, observe_replica_ack, step, run, is_fast,
  is_strong,
}

-- The replicas that hold the write are a quorum.
abbrev pub Held : ReplicaStream → ℕ → Type 0
Held s i = (0 < s.quorum_size) × (s.quorum_size ≤ ack_count i s)

-- Of a policy over `n` replicas.
pub record IsConsistent (n : ℕ) (p : AckPolicy) : Type 0 where
  pub replicas : p.replica_stream.replica_count ≡ n
  pub committed : p.wal.commit_index ≡ length p.wal.entries
  pub sound : IsSound p.replica_stream
  pub in_log :
      (i : ℕ) (m : WriteAckMode)
      → lookup i p.write_modes ≡ some m
      → (0 < i) × (i ≤ length p.wal.entries)
  pub has_mode :
      (i : ℕ) (b : Bool)
      → lookup i p.acked ≡ some b
      → (m : WriteAckMode) × (lookup i p.write_modes ≡ some m)
  pub fast_acked :
      (i : ℕ) → lookup i p.write_modes ≡ some fast_leader_commit → lookup i p.acked ≡ some true
  pub strong_held :
      (i : ℕ)
      → lookup i p.write_modes ≡ some strong_replica_quorum
      → lookup i p.acked ≡ some true
      → Held p.replica_stream i

pub new_policy-IsConsistent : (n : ℕ) → IsConsistent n (new_policy n)
unfolding new_policy lookup new_stream
new_policy-IsConsistent n = record {
  replicas = refl;
  committed = refl;
  sound = new_stream-IsSound n;
  in_log = λ i m h. cc;
  has_mode = λ i b h. cc;
  fast_acked = λ i h. cc;
  strong_held = λ i h g. cc;
}

-- The acknowledgement that `ApplyWrite` computes.
abbrev pub ack : Mutation → WriteAckMode → AckPolicy → Bool
ack mutation mode p =
    let n = length (p.wal.entries ++ mutation ∷ []) in
    leb n n && (is_fast mode || is_strong mode && has_replica_quorum n p.replica_stream)

pub apply_write-IsConsistent :
    (k : ℕ) (mutation : Mutation) (mode : WriteAckMode) (p : AckPolicy)
    → IsConsistent k p
    → IsConsistent k (apply_write mutation mode p).0
unfolding apply_write append has_replica_quorum has_quorum is_fast is_strong
apply_write-IsConsistent k mutation mode p v =
    let n = length (p.wal.entries ++ mutation ∷ []) in
    let size = length-append p.wal.entries (mutation ∷ []) in
    record {
      replicas = v.replicas;
      committed = refl;
      sound = v.sound;
      in_log = λ i m h. ground (arith, size, lookup-insert n i mode p.write_modes, v.in_log i m);
      has_mode = λ i b h. elim (Bool-cases (nat_eqb n i)) [
        | inl same ↦ (mode, ground (arith, lookup-insert n i mode p.write_modes))
        | inr other ↦
            let old = lookup-insert n i (ack mutation mode p) p.acked in
            let (m, found) = v.has_mode i b (ground (arith, old)) in
            (m, ground (arith, lookup-insert n i mode p.write_modes))
      ];
      fast_acked = λ i h. ground (
        arith,
        lookup-insert n i mode p.write_modes,
        lookup-insert n i (ack mutation mode p) p.acked,
        v.fast_acked i,
      );
      strong_held = λ i h g. ground (
        arith,
        lookup-insert n i mode p.write_modes,
        lookup-insert n i (ack mutation mode p) p.acked,
        v.strong_held i,
      );
    }

pub note_ack-IsConsistent :
    (k : ℕ) (r i : ℕ) (mode : WriteAckMode) (t : ReplicaStream) (p : AckPolicy)
    → lookup i p.write_modes ≡ some mode
    → ack_replica r i p.replica_stream ≡ returns t
    → IsConsistent k p
    → IsConsistent k (note_ack i mode t p)
unfolding note_ack has_replica_quorum has_quorum
note_ack-IsConsistent k r i fast_leader_commit t p known e v = record {
  replicas = omega (arith, v.replicas, ack_count_mono r i i p.replica_stream t v.sound e);
  committed = v.committed;
  sound = ack_replica-IsSound r i p.replica_stream t e v.sound;
  in_log = v.in_log;
  has_mode = v.has_mode;
  fast_acked = v.fast_acked;
  strong_held = λ j h g.
      omega (arith, v.strong_held j h g, ack_count_mono r i j p.replica_stream t v.sound e);
}
note_ack-IsConsistent k r i strong_replica_quorum t p known e v =
    let b = leb i p.wal.commit_index && has_replica_quorum i t in
    record {
      replicas = omega (arith, v.replicas, ack_count_mono r i i p.replica_stream t v.sound e);
      committed = v.committed;
      sound = ack_replica-IsSound r i p.replica_stream t e v.sound;
      in_log = v.in_log;
      has_mode = λ j b' h. elim (Bool-cases (nat_eqb i j)) [
        | inl same ↦ (strong_replica_quorum, rw (← (nat_eqb_iff i j).0 same) known)
        | inr other ↦ v.has_mode j b' (ground (arith, lookup-insert i j b p.acked))
      ];
      fast_acked = λ j h. ground (arith, known, lookup-insert i j b p.acked, v.fast_acked j);
      strong_held = λ j h g. ground (
        arith,
        lookup-insert i j b p.acked,
        v.strong_held j,
        ack_count_mono r i j p.replica_stream t v.sound e,
      );
    }

observe_replica_ack-IsConsistent :
    (k : ℕ) (r i : ℕ) (p : AckPolicy)
    → IsConsistent k p
    → IsConsistent k (observe_replica_ack r i p).0
unfolding observe_replica_ack
observe_replica_ack-IsConsistent k r i p v = elim (Option-cases (lookup i p.write_modes)) [
  | inl unknown ↦ rw (unknown, observe_replica_ack) v
  | inr (mode, known) ↦ elim (Result-cases (ack_replica r i p.replica_stream)) [
    | inl (x, refused) ↦ rw (known, refused, observe_replica_ack) v
    | inr (t, taken) ↦
        rw (known, taken, observe_replica_ack) (note_ack-IsConsistent k r i mode t p known taken v)
  ]
]

pub step-IsConsistent :
    (k : ℕ) (c : Call) (p : AckPolicy) → IsConsistent k p → IsConsistent k (step c p)
unfolding step
step-IsConsistent k (applies mutation mode) p v = apply_write-IsConsistent k mutation mode p v
step-IsConsistent k (observes r i) p v = observe_replica_ack-IsConsistent k r i p v

pub run-IsConsistent :
    (k : ℕ) (cs : List Call) (p : AckPolicy) → IsConsistent k p → IsConsistent k (run cs p)
unfolding run
run-IsConsistent k [] p v = v
run-IsConsistent k (c ∷ cs) p v = run-IsConsistent k cs (step c p) (step-IsConsistent k c p v)

-- After any calls on a new policy over `n` replicas, the log holds the mutations of all calls of `ApplyWrite`
-- in their order, and a strong write that is acknowledged stands in it at its index: `EntryAt` gives the
-- mutation of that write. It is committed, and held by more than half of the replicas, of which there is
-- one at least.
pub acked_strong_majority :
    (n : ℕ) (cs : List Call) (i : ℕ)
    → let p = run cs (new_policy n) in
      lookup i p.write_modes ≡ some strong_replica_quorum
      → lookup i p.acked ≡ some true
      → (m : Mutation) × (get_elem? (written cs) (i - 1) ≡ some m)
        × (entry_at i p.wal ≡ returns m)
        × (p.wal.entries ≡ written cs)
        × (0 < i)
        × (i ≤ p.wal.commit_index)
        × (n < 2 * ack_count i p.replica_stream)
        × (0 < n)
unfolding new_policy
acked_strong_majority n cs i strong acked =
    let v = run-IsConsistent n cs (new_policy n) (new_policy-IsConsistent n) in
    let (positive, within) = v.in_log i strong_replica_quorum strong in
    let log = entries-run cs (new_policy n) in
    let (m, found, read) = entry_at_within i (run cs (new_policy n)).wal positive within in
    (
      m,
      ap (λ es. get_elem? es (i - 1)) (sym log) ∙ found,
      read,
      log,
      positive,
      omega (arith, within, v.committed),
      omega (arith, v.replicas, v.strong_held i strong acked, v.sound.majority),
      omega (arith, v.replicas, v.strong_held i strong acked, v.sound.majority, v.sound.reachable),
    )
