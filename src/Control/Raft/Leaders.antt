-- ===== src/Control/Raft/Leaders.antt =====
-- Who leads a shard after any sequence of calls.
use distributed_cache.Prelude.{
  ℕ, Bytes, bytes_key, bytes_eqb, bytes_eqb_iff, is_empty, ◌≡◌, ◌⊎◌, inl, inr, refl, Bool, true,
  false, not, ◌&&◌, ◌||◌, none, some, List, [], ◌∷◌, arith, All, All-mono, Bool-cases, Option-cases,
}
use distributed_cache.Prelude.Map.{Map, lookup, insert-All, lookup-All}
use distributed_cache.Control.Heartbeat.{
  NodeHealth, HeartbeatManager, is_alive, record_heartbeat_at, register_node, record_heartbeat,
}
use distributed_cache.Control.Heartbeat.Gossip.{on_node_next}
use distributed_cache.Control.Heartbeat.Liveness.{is_alive-entry_of}
use distributed_cache.Control.Raft.{
  ShardMetadata, RaftMetadataAdapter, new_adapter, first_alive, elect_leader_if_needed,
  renew_leader, renew_leaders, adapter_register_node, adapter_record_heartbeat, add_shard,
  leader_for_shard, adapter_on_heartbeat_timeout, adapter_ingest_gossip,
}

-- The name stands in the list.
unfoldable pub has : Bytes → List Bytes → Bool
has k [] = false
has k (b ∷ bs) = bytes_eqb k b || has k bs

has_self : (k : Bytes) (ks : List Bytes) → has k (k ∷ ks) ≡ true
unfolding has
has_self k ks = ground (arith, bytes_eqb_iff k k)

-- A leader that is alive and a replica.
abbrev pub IsLed : HeartbeatManager → ShardMetadata → Type 0
IsLed h s = (is_alive s.leader h ≡ true) × (has s.leader s.replicas ≡ true)

-- No replica is alive, and there is no leader.
abbrev pub IsDown : HeartbeatManager → ShardMetadata → Type 0
IsDown h s = (s.leader ≡ []) × All (λ r. is_alive r h ≡ false) s.replicas

-- The two together, after an election.
abbrev pub IsElected : HeartbeatManager → ShardMetadata → Type 0
IsElected h s = IsLed h s ⊎ IsDown h s

-- What every call keeps: between elections a shard may have no leader, but never a dead one.
abbrev pub IsSafe : HeartbeatManager → ShardMetadata → Type 0
IsSafe h s = IsLed h s ⊎ (s.leader ≡ [])

elected→safe : (h : HeartbeatManager) (s : ShardMetadata) → IsElected h s → IsSafe h s
elected→safe h s (inl led) = inl led
elected→safe h s (inr down) = inr down.0

-- One more dead replica, in front.
IsElected-cons :
    (h : HeartbeatManager) (r : Bytes) (s : ShardMetadata)
    → is_alive r h ≡ false
    → IsElected h s
    → IsElected h (record s { replicas = r ∷ s.replicas })
unfolding has
IsElected-cons h r s f (inl led) = inl (led.0, ground (arith, led.1))
IsElected-cons h r s f (inr down) = inr (down.0, (f, down.1))

first_alive_found :
    (h : HeartbeatManager) (r : Bytes) (rs : List Bytes)
    → is_alive r h ≡ true
    → first_alive h (r ∷ rs) ≡ r
unfolding first_alive
first_alive_found h r rs t = ground (arith, t)

first_alive_skip :
    (h : HeartbeatManager) (r : Bytes) (rs : List Bytes)
    → is_alive r h ≡ false
    → first_alive h (r ∷ rs) ≡ first_alive h rs
unfolding first_alive
first_alive_skip h r rs f = ground (arith, f)

first_alive-nil : (h : HeartbeatManager) → first_alive h [] ≡ []
unfolding first_alive
first_alive-nil h = refl

elect_leader-IsElected :
    (h : HeartbeatManager) (rs : List Bytes)
    → IsElected h (record { replicas = rs; leader = first_alive h rs })
elect_leader-IsElected h [] = rw (first_alive-nil h) (inr (refl, tt))
elect_leader-IsElected h (r ∷ rs) = elim (Bool-cases (is_alive r h)) [
  | inl t ↦ rw (first_alive_found h r rs t) (inl (t, has_self r rs))
  | inr f ↦ rw (first_alive_skip h r rs f) (
      IsElected-cons h r (record { replicas = rs; leader = first_alive h rs }) f
        (elect_leader-IsElected h rs))
]

renew_leader-IsElected :
    (g h : HeartbeatManager) (s : ShardMetadata) → IsSafe g s → IsElected h (renew_leader h s)
unfolding renew_leader elect_leader_if_needed
renew_leader-IsElected g h s safe =
    elim (Bool-cases (not (is_empty s.leader) && is_alive s.leader h)) [
      | inl t ↦ rw t (elim safe [
        | inl led ↦ inl (ground (arith, t), led.1)
        | inr e ↦ absurd (ground (arith, t, e))
      ])
      | inr f ↦ rw f (elect_leader-IsElected h s.replicas)
    ]

renew_leaders-All :
    (g h : HeartbeatManager) (m : Map Bytes ShardMetadata)
    → All (λ p. IsSafe g p.1) m
    → All (λ p. IsElected h p.1) (renew_leaders h m)
unfolding renew_leaders
renew_leaders-All g h [] v = tt
renew_leaders-All g h (p ∷ m) v = (renew_leader-IsElected g h p.1 v.0, renew_leaders-All g h m v.1)

-- A heartbeat puts nobody to death.
record_heartbeat_alive :
    (k j : Bytes) (t : ℕ) (h : HeartbeatManager)
    → is_alive j h ≡ true
    → is_alive j (record_heartbeat k t h) ≡ true
unfolding record_heartbeat record_heartbeat_at
record_heartbeat_alive k j t h a = ground (
  arith,
  is_alive-entry_of j h,
  is_alive-entry_of j (record_heartbeat k t h),
  on_node_next k (record_heartbeat_at k t) h j,
  bytes_eqb_iff k j,
)

IsSafe-mono :
    (g h : HeartbeatManager)
    → ((j : Bytes) → is_alive j g ≡ true → is_alive j h ≡ true)
    → (s : ShardMetadata) → IsSafe g s
    → IsSafe h s
IsSafe-mono g h keep s (inl led) = inl (keep s.leader led.0, led.1)
IsSafe-mono g h keep s (inr e) = inr e

-- The calls that change an adapter.
pub data Call : Type 0 where
  registers heartbeats times_out : (node_id : Bytes) (ms : ℕ) → Call
  gossips : List NodeHealth → Call
  adds_shard : (shard_id : Bytes) (replicas : List Bytes) → Call

unfoldable pub step : Call → RaftMetadataAdapter → RaftMetadataAdapter
step (registers k t) a = adapter_register_node k t a
step (heartbeats k t) a = adapter_record_heartbeat k t a
step (times_out k t) a = adapter_on_heartbeat_timeout k t a
step (gossips os) a = adapter_ingest_gossip os a
step (adds_shard k rs) a = add_shard k rs a

unfoldable pub run : List Call → RaftMetadataAdapter → RaftMetadataAdapter
run [] a = a
run (c ∷ cs) a = run cs (step c a)

abbrev pub AllSafe : RaftMetadataAdapter → Type 0
AllSafe a = All (λ p. IsSafe a.heartbeat p.1) a.shards

abbrev pub AllElected : RaftMetadataAdapter → Type 0
AllElected a = All (λ p. IsElected a.heartbeat p.1) a.shards

AllElected→AllSafe : (a : RaftMetadataAdapter) → AllElected a → AllSafe a
AllElected→AllSafe a =
    All-mono (λ p. IsElected a.heartbeat p.1) (λ p. IsSafe a.heartbeat p.1) a.shards
      (λ p. elected→safe a.heartbeat p.1)

step-AllSafe : (c : Call) (a : RaftMetadataAdapter) → AllSafe a → AllSafe (step c a)
unfolding step adapter_register_node adapter_record_heartbeat adapter_on_heartbeat_timeout
    adapter_ingest_gossip add_shard elect_leader_if_needed register_node record_heartbeat
step-AllSafe (registers k t) a v =
    All-mono _ _ a.shards
      (λ p. IsSafe-mono a.heartbeat _ (λ j. record_heartbeat_alive k j t a.heartbeat) p.1) v
step-AllSafe (heartbeats k t) a v =
    All-mono _ _ a.shards
      (λ p. IsSafe-mono a.heartbeat _ (λ j. record_heartbeat_alive k j t a.heartbeat) p.1) v
step-AllSafe (times_out k t) a v =
    AllElected→AllSafe (adapter_on_heartbeat_timeout k t a)
      (renew_leaders-All a.heartbeat _ a.shards v)
step-AllSafe (gossips os) a v =
    AllElected→AllSafe (adapter_ingest_gossip os a) (renew_leaders-All a.heartbeat _ a.shards v)
step-AllSafe (adds_shard k rs) a v =
    insert-All (λ p. IsSafe a.heartbeat p.1) k _ a.shards
      (elected→safe a.heartbeat _ (elect_leader-IsElected a.heartbeat rs)) v

run-AllSafe : (cs : List Call) (a : RaftMetadataAdapter) → AllSafe a → AllSafe (run cs a)
unfolding run
run-AllSafe [] a v = v
run-AllSafe (c ∷ cs) a v = run-AllSafe cs (step c a) (step-AllSafe c a v)

pub leader_for_shard_found :
    (k : Bytes) (s : ShardMetadata) (a : RaftMetadataAdapter)
    → lookup k a.shards ≡ some s
    → leader_for_shard k a ≡ s.leader
unfolding leader_for_shard
leader_for_shard_found k s a found = ground (arith, found)

leader_for_shard_missing :
    (k : Bytes) (a : RaftMetadataAdapter) → lookup k a.shards ≡ none → leader_for_shard k a ≡ []
unfolding leader_for_shard
leader_for_shard_missing k a e = ground (arith, e)

-- Whatever calls a new adapter takes, in whatever order, the leader of a shard is never a dead node:
-- the shard has no leader, or its leader is alive and one of its replicas.
pub leader_for_shard-run :
    (cs : List Call) (shard_id : Bytes)
    → let a = run cs new_adapter in
      (leader_for_shard shard_id a ≡ [])
      ⊎ ((is_alive (leader_for_shard shard_id a) a.heartbeat ≡ true)
          × ((s : ShardMetadata) × (lookup shard_id a.shards ≡ some s)
              × (has (leader_for_shard shard_id a) s.replicas ≡ true)))
leader_for_shard-run cs k =
    let a = run cs new_adapter in
    elim (Option-cases (lookup k a.shards)) [
      | inl e ↦ inl (leader_for_shard_missing k a e)
      | inr (s, found) ↦
          rw (leader_for_shard_found k s a found)
            (elim (lookup-All (λ p. IsSafe a.heartbeat p.1) k s a.shards
              (run-AllSafe cs new_adapter tt) found) [
                | inl led ↦ inr (led.0, (s, found, led.1))
                | inr e ↦ inl e
              ])
    ]

-- The calls that hold elections.
abbrev pub elects : Call → Bool
elects (registers k t) = false
elects (heartbeats k t) = false
elects (times_out k t) = true
elects (gossips os) = true
elects (adds_shard k rs) = false

step-AllElected :
    (c : Call) (a : RaftMetadataAdapter) → elects c ≡ true → AllSafe a → AllElected (step c a)
unfolding step adapter_on_heartbeat_timeout adapter_ingest_gossip
step-AllElected (registers k t) a e v = cc
step-AllElected (heartbeats k t) a e v = cc
step-AllElected (times_out k t) a e v = renew_leaders-All a.heartbeat _ a.shards v
step-AllElected (gossips os) a e v = renew_leaders-All a.heartbeat _ a.shards v
step-AllElected (adds_shard k rs) a e v = cc

-- After a timeout or a batch of gossip, in any state that calls on a new adapter reach, each shard
-- either is led by a replica that is alive, or has no leader and no replica that is alive.
pub leader_for_shard-IsElected :
    (cs : List Call) (c : Call) (shard_id : Bytes) (s : ShardMetadata)
    → elects c ≡ true
    → let b = step c (run cs new_adapter) in
      lookup shard_id b.shards ≡ some s
      → IsElected b.heartbeat s × (leader_for_shard shard_id b ≡ s.leader)
leader_for_shard-IsElected cs c k s e found =
    let b = step c (run cs new_adapter) in
    let elected = step-AllElected c (run cs new_adapter) e (run-AllSafe cs new_adapter tt) in
    (
      lookup-All (λ p. IsElected b.heartbeat p.1) k s b.shards elected found,
      leader_for_shard_found k s b found,
    )
