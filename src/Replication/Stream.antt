-- ===== src/Replication/Stream.antt =====
-- src/replication/replica_stream.hpp and .cpp: how far each replica has come, and the quorum.
use distributed_cache.Prelude.{
  ℕ, zero, suc, ◌+◌, ◌/◌, ◌*◌, ◌<◌, ◌≤◌, ◌≡◌, ◌⊎◌, inl, inr, Bool-cases, Bool, ◌&&◌, List, [], ◌∷◌,
  arith, length, length-set, length-replicate, get_or, set, replicate, ltb, leb, nat_eqb,
  if◌then◌else◌, Result, returns, throws, out_of_range,
}

pub record ReplicaStream : Type 0 where
  pub replica_count : ℕ
  pub quorum_size : ℕ
  pub replica_progress : List ℕ

-- The constructor.
unfoldable pub new_stream : ℕ → ReplicaStream
new_stream replica_count = record {
  replica_count = replica_count;
  quorum_size = if nat_eqb replica_count 0 then 0 else replica_count / 2 + 1;
  replica_progress = replicate replica_count 0;
}

unfoldable pub ack_replica : ℕ → ℕ → ReplicaStream → Result ReplicaStream
ack_replica replica_id log_index s =
    if leb s.replica_count replica_id
    then throws out_of_range
    else if ltb (get_or s.replica_progress replica_id 0) log_index
    then returns (record s { replica_progress = set s.replica_progress replica_id log_index })
    else returns s

-- The loop of `AckCount`.
unfoldable pub count_from : ℕ → ℕ → List ℕ → ℕ
count_from log_index count [] = count
count_from log_index count (progress ∷ rest) =
    count_from log_index (if leb log_index progress then count + 1 else count) rest

unfoldable pub ack_count : ℕ → ReplicaStream → ℕ
unfolding count_from
ack_count log_index s = count_from log_index 0 s.replica_progress

unfoldable pub has_quorum : ℕ → ReplicaStream → Bool
has_quorum log_index s = leb s.quorum_size (ack_count log_index s)

-- The number of replicas that hold the index, without an accumulator.
abbrev pub holders : ℕ → List ℕ → ℕ
holders i [] = 0
holders i (p ∷ ps) = (if leb i p then 1 else 0) + holders i ps

count_from-holders : (i count : ℕ) (ps : List ℕ) → count_from i count ps ≡ count + holders i ps
unfolding count_from
count_from-holders i count [] = omega arith
count_from-holders i count (p ∷ ps) =
    ground (arith, count_from-holders i (count + 1) ps, count_from-holders i count ps)

pub ack_count-holders : (i : ℕ) (s : ReplicaStream) → ack_count i s ≡ holders i s.replica_progress
unfolding ack_count
ack_count-holders i s = omega (arith, count_from-holders i 0 s.replica_progress)

holders-set :
    (i r v : ℕ) (ps : List ℕ)
    → r < length ps
    → holders i (set ps r v) + (if leb i (get_or ps r 0) then 1 else 0)
      ≡ holders i ps + (if leb i v then 1 else 0)
holders-set i r v [] h = elim h [ ]
holders-set i zero v (p ∷ ps) h = omega arith
holders-set i (suc r) v (p ∷ ps) h = omega (arith, holders-set i r v ps)

holders-le-length : (i : ℕ) (ps : List ℕ) → holders i ps ≤ length ps
holders-le-length i [] = omega arith
holders-le-length i (p ∷ ps) = ground (arith, holders-le-length i ps)

-- One progress for each replica, and the quorum is a majority, if there are replicas.
pub record IsSound (s : ReplicaStream) : Type 0 where
  pub one_each : length s.replica_progress ≡ s.replica_count
  pub majority : s.replica_count < 2 * s.quorum_size ⊎ (s.replica_count ≡ 0)
  pub reachable : s.quorum_size ≤ s.replica_count

pub new_stream-IsSound : (n : ℕ) → IsSound (new_stream n)
unfolding new_stream
new_stream-IsSound n = ground (arith, length-replicate n (zero))

pub ack_replica-IsSound :
    (r i : ℕ) (s t : ReplicaStream) → ack_replica r i s ≡ returns t → IsSound s → IsSound t
unfolding ack_replica
ack_replica-IsSound r i s t e v = ground (arith, length-set s.replica_progress r i)

-- An acknowledgement by a replica in range counts at exactly the indices above its progress and up to
-- the acknowledged one; an old acknowledgement changes nothing. A replica out of range is refused.
ack_count-ack_replica :
    (r i j : ℕ) (s : ReplicaStream)
    → IsSound s
    → (s.replica_count ≤ r → ack_replica r i s ≡ throws out_of_range)
      × (r < s.replica_count
          → (t : ReplicaStream) × (ack_replica r i s ≡ returns t)
            × (ack_count j t
                ≡ ack_count j s
                  + (if ltb (get_or s.replica_progress r 0) j && leb j i then 1 else 0)))
unfolding ack_replica
ack_count-ack_replica r i j s v = (
  λ h. ground arith,
  λ h.
      let old = get_or s.replica_progress r 0 in
      elim (Bool-cases (ltb old i)) [
        | inl newer ↦
            let t = record s { replica_progress = set s.replica_progress r i } in
            (
              t,
              ground arith,
              ground (
                arith,
                ack_count-holders j s,
                ack_count-holders j t,
                holders-set j r i s.replica_progress (omega (arith, v.one_each)),
              ),
            )
        | inr older ↦ (s, ground arith, ground arith)
      ],
)

-- An acknowledgement never lowers a count, and keeps the quorum.
pub ack_count_mono :
    (r i j : ℕ) (s t : ReplicaStream)
    → IsSound s
    → ack_replica r i s ≡ returns t
    → (ack_count j s ≤ ack_count j t)
      × (t.quorum_size ≡ s.quorum_size)
      × (t.replica_count ≡ s.replica_count)
unfolding ack_replica
ack_count_mono r i j s t v e = ground (
  arith,
  v.one_each,
  ack_count-holders j s,
  ack_count-holders j t,
  holders-set j r i s.replica_progress,
)
