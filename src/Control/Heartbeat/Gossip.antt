-- ===== src/Control/Heartbeat/Gossip.antt =====
-- On the order of the observations in a batch of gossip.
use mathlib.Core.List.{Perm, Permᴰ}
use mathlib.Core.Logic.{∥∥₁_elim}
use distributed_cache.Prelude.{
  ℕ, Bytes, bytes_key, bytes_eqb, bytes_eqb_iff, is_empty, ◌≡◌, refl, ◌∙◌, false, some, List, [],
  ◌∷◌, arith, All, if◌then◌else◌,
}
use distributed_cache.Prelude.Map.{lookup, lookup-insert}
use distributed_cache.Control.Heartbeat.{
  NodeHealth, HeartbeatManager, entry_of, last_observed, write_back, ingest_at, on_node, ingest_one,
  ingest_gossip, get_node_health,
}

-- The same contents of both maps.
pub record SameHealth (a b : HeartbeatManager) : Type 0 where
  pub nodes : (k : Bytes) → lookup k a.nodes ≡ lookup k b.nodes
  pub last : (k : Bytes) → lookup k a.last_observation_ms ≡ lookup k b.last_observation_ms

SameHealth-trans : {a b c : HeartbeatManager} → SameHealth a b → SameHealth b c → SameHealth a c
SameHealth-trans p q = record {
  nodes = λ k. p.nodes k ∙ q.nodes k;
  last = λ k. p.last k ∙ q.last k;
}

module _ (k : Bytes) (body : NodeHealth → ℕ → NodeHealth × ℕ) (h : HeartbeatManager) where
  -- What a body leaves at each node.
  pub on_node-lookup :
      (j : Bytes)
      → let r = body (entry_of k h) (last_observed k h) in
        (lookup j (on_node k body h).nodes ≡ (if bytes_eqb k j then some r.0 else lookup j h.nodes))
        × (lookup j (on_node k body h).last_observation_ms
            ≡ (if bytes_eqb k j then some r.1 else lookup j h.last_observation_ms))
  unfolding on_node write_back
  on_node-lookup j =
      let r = body (entry_of k h) (last_observed k h) in
      (lookup-insert k j r.0 h.nodes, lookup-insert k j r.1 h.last_observation_ms)

  -- What the next body sees there.
  pub on_node_next :
      (j : Bytes)
      → let r = body (entry_of k h) (last_observed k h) in
        (entry_of j (on_node k body h) ≡ (if bytes_eqb k j then r.0 else entry_of j h))
        × (last_observed j (on_node k body h) ≡ (if bytes_eqb k j then r.1 else last_observed j h))
  unfolding entry_of last_observed
  on_node_next j = ground (arith, on_node-lookup j)

SameHealth-seen :
    {a b : HeartbeatManager}
    → SameHealth a b
    → (k : Bytes) → (entry_of k a ≡ entry_of k b) × (last_observed k a ≡ last_observed k b)
unfolding entry_of last_observed
SameHealth-seen s k = ground (arith, s.nodes k, s.last k)

ingest_one-SameHealth :
    (o : NodeHealth) {a b : HeartbeatManager}
    → SameHealth a b
    → SameHealth (ingest_one o a) (ingest_one o b)
unfolding ingest_one
ingest_one-SameHealth o {a} {b} s = record {
  nodes = λ k. ground (
    arith,
    SameHealth-seen s o.node_id,
    on_node-lookup o.node_id (ingest_at o) a k,
    on_node-lookup o.node_id (ingest_at o) b k,
    s.nodes k,
  );
  last = λ k. ground (
    arith,
    SameHealth-seen s o.node_id,
    on_node-lookup o.node_id (ingest_at o) a k,
    on_node-lookup o.node_id (ingest_at o) b k,
    s.last k,
  );
}

-- The merge at one node.
ingest_at_comm :
    (p q e : NodeHealth) (t : ℕ)
    → p.node_id ≡ q.node_id
    → is_empty p.node_id ≡ false
    → is_empty q.node_id ≡ false
    → let (e', t') = ingest_at p e t in
      let (f', u') = ingest_at q e t in ingest_at q e' t' ≡ ingest_at p f' u'
unfolding ingest_at
ingest_at_comm p q e t same np nq = ground arith

module _ (p q : NodeHealth) (h : HeartbeatManager) where
  -- The node of `q`, after `p` was merged at its own.
  abbrev entry_between : NodeHealth
  entry_between =
      if bytes_eqb p.node_id q.node_id
      then (ingest_at p (entry_of p.node_id h) (last_observed p.node_id h)).0
      else entry_of q.node_id h

  abbrev last_between : ℕ
  last_between =
      if bytes_eqb p.node_id q.node_id
      then (ingest_at p (entry_of p.node_id h) (last_observed p.node_id h)).1
      else last_observed q.node_id h

  ingest_twice :
      (j : Bytes)
      → let r = ingest_at p (entry_of p.node_id h) (last_observed p.node_id h) in
        let r' = ingest_at q entry_between last_between in
        (lookup j (ingest_one q (ingest_one p h)).nodes ≡ (
          if bytes_eqb q.node_id j
          then some r'.0
          else if bytes_eqb p.node_id j
          then some r.0
          else lookup j h.nodes))
        × (lookup j (ingest_one q (ingest_one p h)).last_observation_ms ≡ (
            if bytes_eqb q.node_id j
            then some r'.1
            else if bytes_eqb p.node_id j
            then some r.1
            else lookup j h.last_observation_ms))
  unfolding ingest_one
  ingest_twice j =
      rw
        (
          (on_node-lookup q.node_id (ingest_at q) (on_node p.node_id (ingest_at p) h) j).0,
          (on_node-lookup q.node_id (ingest_at q) (on_node p.node_id (ingest_at p) h) j).1,
          (on_node-lookup p.node_id (ingest_at p) h j).0,
          (on_node-lookup p.node_id (ingest_at p) h j).1,
          (on_node_next p.node_id (ingest_at p) h q.node_id).0,
          (on_node_next p.node_id (ingest_at p) h q.node_id).1,
        )
        (refl, refl)

ingest_one_comm :
    (p q : NodeHealth) (h : HeartbeatManager)
    → is_empty p.node_id ≡ false
    → is_empty q.node_id ≡ false
    → SameHealth (ingest_one q (ingest_one p h)) (ingest_one p (ingest_one q h))
ingest_one_comm p q h np nq =
    let merged = ingest_at_comm p q (entry_of p.node_id h) (last_observed p.node_id h) in
    record {
      nodes = λ j. ground (
        arith,
        (ingest_twice p q h j).0,
        (ingest_twice q p h j).0,
        bytes_eqb_iff p.node_id q.node_id,
        bytes_eqb_iff q.node_id p.node_id,
        bytes_eqb_iff p.node_id j,
        bytes_eqb_iff q.node_id j,
        merged,
      );
      last = λ j. ground (
        arith,
        (ingest_twice p q h j).1,
        (ingest_twice q p h j).1,
        bytes_eqb_iff p.node_id q.node_id,
        bytes_eqb_iff q.node_id p.node_id,
        bytes_eqb_iff p.node_id j,
        bytes_eqb_iff q.node_id j,
        merged,
      );
    }

ingest_gossip-SameHealth :
    (os : List NodeHealth) {a b : HeartbeatManager}
    → SameHealth a b
    → SameHealth (ingest_gossip os a) (ingest_gossip os b)
unfolding ingest_gossip
ingest_gossip-SameHealth [] s = s
ingest_gossip-SameHealth (o ∷ os) s = ingest_gossip-SameHealth os (ingest_one-SameHealth o s)

abbrev pub AllNamed : List NodeHealth → Type 0
AllNamed = All λ o. is_empty o.node_id ≡ false

AllNamed-perm : {xs ys : List NodeHealth} → Permᴰ xs ys → AllNamed xs → AllNamed ys
AllNamed-perm Permᴰ.nil h = tt
AllNamed-perm (Permᴰ.cons e p) h = (rw (← e) h.0, AllNamed-perm p h.1)
AllNamed-perm (Permᴰ.swap e f) h = (rw (← f) h.1.0, (rw (← e) h.0, h.1.1))
AllNamed-perm (Permᴰ.trans p q) h = AllNamed-perm q (AllNamed-perm p h)

ingest_gossip-permᴰ :
    {xs ys : List NodeHealth} (h : HeartbeatManager)
    → Permᴰ xs ys
    → AllNamed xs
    → SameHealth (ingest_gossip xs h) (ingest_gossip ys h)
unfolding ingest_gossip
ingest_gossip-permᴰ h Permᴰ.nil n = record { nodes = λ k. refl; last = λ k. refl }
ingest_gossip-permᴰ h (Permᴰ.cons {a = a} {l₂ = l} e p) n =
    rw (← e) (ingest_gossip-permᴰ (ingest_one a h) p n.1)
ingest_gossip-permᴰ h (Permᴰ.swap {a = a} {b = b} {l = l} e f) n =
    rw (← e, ← f) (ingest_gossip-SameHealth l (ingest_one_comm a b h n.0 n.1.0))
ingest_gossip-permᴰ h (Permᴰ.trans p q) n =
    SameHealth-trans (ingest_gossip-permᴰ h p n) (ingest_gossip-permᴰ h q (AllNamed-perm p n))

-- A batch of gossip about nodes whose names are not empty leaves the same health of every node and the
-- same times of observation in whatever order its observations come.
pub ingest_gossip-perm :
    (xs ys : List NodeHealth) (h : HeartbeatManager)
    → Perm xs ys
    → AllNamed xs
    → (k : Bytes)
    → (get_node_health k (ingest_gossip xs h) ≡ get_node_health k (ingest_gossip ys h))
      × (lookup k (ingest_gossip xs h).last_observation_ms
          ≡ lookup k (ingest_gossip ys h).last_observation_ms)
unfolding get_node_health
ingest_gossip-perm xs ys h p n k =
    ∥∥₁_elim p (hlevel) λ d. let s = ingest_gossip-permᴰ h d n in (s.nodes k, s.last k)
