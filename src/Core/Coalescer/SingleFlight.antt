-- ===== src/Core/Coalescer/SingleFlight.antt =====
-- One call works for a key at a time, and the others get its future.
use distributed_cache.Prelude.{
  ℕ, Bytes, bytes_key, bytes_eqb_iff, nat_eqb_iff, ◌≡◌, ◌⊎◌, inl, inr, refl, ap, Bool, true, false,
  some, Option-cases, arith,
}
use distributed_cache.Prelude.Map.{
  lookup, IsDistinct, lookup-insert, lookup-erase, insert-IsDistinct, erase-IsDistinct,
}
use distributed_cache.Core.Coalescer.{
  Settled, Phase, calling, working, leaving, returned, RequestCoalescer, new_coalescer, at, enter,
  settle, leave, Step, enters, settles, leaves, Steps, none_yet, and_then,
}

-- Between its two blocks.
abbrev pub is_active : Phase → Bool
is_active calling = false
is_active working = true
is_active leaving = true
is_active (returned leader) = false

active_cases :
    {A : Type 0} (f : Phase) → is_active f ≡ true → (f ≡ working → A) → (f ≡ leaving → A) → A
active_cases calling a w l = absurd (ground (arith, a))
active_cases working a w l = w refl
active_cases leaving a w l = l refl
active_cases (returned leader) a w l = absurd (ground (arith, a))

module _ (key : ℕ → Bytes) (work : ℕ → Settled) where
  -- The future of a call is there, or its call is at work.
  abbrev pub IsComing : ℕ → RequestCoalescer → Type 0
  IsComing p c = (c.phase p ≡ working) ⊎ (c.promise p ≡ some (work p))

  pub record IsCoherent (c : RequestCoalescer) : Type 0 where
    pub distinct : IsDistinct c.inflight
    pub listed : (i : ℕ) → is_active (c.phase i) ≡ true → lookup (key i) c.inflight ≡ some i
    pub owned :
        (k : Bytes) (p : ℕ)
        → lookup k c.inflight ≡ some p
        → (key p ≡ k) × (is_active (c.phase p) ≡ true)
    pub kept : (i : ℕ) → c.phase i ≡ leaving → c.promise i ≡ some (work i)
    pub future : (i p : ℕ) → c.phase i ≡ returned p → (key p ≡ key i) × IsComing p c

  active-IsComing :
      (p : ℕ) (c : RequestCoalescer) → IsCoherent c → is_active (c.phase p) ≡ true → IsComing p c
  active-IsComing p c v a = active_cases (c.phase p) a (λ e. inl e) (λ e. inr (v.kept p e))

  enter-IsCoherent :
      (i : ℕ) (c : RequestCoalescer)
      → c.phase i ≡ calling
      → IsCoherent c
      → IsCoherent (enter key work i c)
  unfolding enter at
  enter-IsCoherent i c e v = elim (Option-cases (lookup (key i) c.inflight)) [
    | inr (leader, found) ↦
        rw (enter, found)
          (record {
            distinct = v.distinct;
            listed = λ j h. ground (arith, h, nat_eqb_iff i j, v.listed j);
            owned = λ k p h. ground (arith, h, e, nat_eqb_iff i p, v.owned k p h);
            kept = λ j h. ground (arith, h, nat_eqb_iff i j, v.kept j);
            future = λ j p h. ground (
              arith,
              h,
              e,
              found,
              nat_eqb_iff i j,
              nat_eqb_iff i p,
              v.future j p,
              v.owned (key i) leader found,
              active-IsComing leader c v,
            );
          })
    | inl new ↦
        rw (enter, new)
          (record {
            distinct = insert-IsDistinct (key i) i c.inflight v.distinct;
            listed = λ j h. ground (
              arith,
              h,
              new,
              nat_eqb_iff i j,
              v.listed j,
              lookup-insert (key i) (key j) i c.inflight,
              bytes_eqb_iff (key i) (key j),
            );
            owned = λ k p h. ground (
              arith,
              h,
              e,
              nat_eqb_iff i p,
              v.owned k p,
              lookup-insert (key i) k i c.inflight,
              bytes_eqb_iff (key i) k,
            );
            kept = λ j h. ground (arith, h, nat_eqb_iff i j, v.kept j);
            future = λ j p h. ground (arith, h, e, nat_eqb_iff i j, nat_eqb_iff i p, v.future j p);
          })
  ]

  settle-IsCoherent :
      (i : ℕ) (c : RequestCoalescer)
      → c.phase i ≡ working
      → IsCoherent c
      → IsCoherent (settle key work i c)
  unfolding settle at
  settle-IsCoherent i c e v = record {
    distinct = v.distinct;
    listed = λ j h. ground (arith, h, e, nat_eqb_iff i j, v.listed j);
    owned = λ k p h. ground (arith, h, e, nat_eqb_iff i p, v.owned k p h);
    kept = λ j h. ground (arith, h, nat_eqb_iff i j, v.kept j);
    future = λ j p h. ground (arith, h, nat_eqb_iff i j, nat_eqb_iff i p, v.future j p);
  }

  leave-IsCoherent :
      (i : ℕ) (c : RequestCoalescer)
      → c.phase i ≡ leaving
      → IsCoherent c
      → IsCoherent (leave key work i c)
  unfolding leave at
  leave-IsCoherent i c e v = record {
    distinct = erase-IsDistinct (key i) c.inflight v.distinct;
    listed = λ j h. ground (
      arith,
      h,
      e,
      nat_eqb_iff i j,
      v.listed j,
      v.listed i,
      lookup-erase (key i) (key j) c.inflight v.distinct,
      bytes_eqb_iff (key i) (key j),
    );
    owned = λ k p h. ground (
      arith,
      h,
      e,
      nat_eqb_iff i p,
      v.owned k p,
      lookup-erase (key i) k c.inflight v.distinct,
      bytes_eqb_iff (key i) k,
    );
    kept = λ j h. ground (arith, h, nat_eqb_iff i j, v.kept j);
    future =
        λ j p h. ground (arith, h, e, nat_eqb_iff i j, nat_eqb_iff i p, v.future j p, v.kept i);
  }

  pub Step-IsCoherent : {c d : RequestCoalescer} → Step key work c d → IsCoherent c → IsCoherent d
  Step-IsCoherent {c} (enters i e) v = enter-IsCoherent i c e v
  Step-IsCoherent {c} (settles i e) v = settle-IsCoherent i c e v
  Step-IsCoherent {c} (leaves i e) v = leave-IsCoherent i c e v

  pub new_coalescer-IsCoherent : IsCoherent new_coalescer
  unfolding lookup
  new_coalescer-IsCoherent = record {
    distinct = tt;
    listed = λ i h. ground (arith, h);
    owned = λ k p h. ground (arith, h);
    kept = λ i h. absurd (ground (arith, h));
    future = λ i p h. absurd (ground (arith, h));
  }

  pub Steps-IsCoherent : {c d : RequestCoalescer} → Steps key work c d → IsCoherent c → IsCoherent d
  Steps-IsCoherent none_yet v = v
  Steps-IsCoherent (and_then run step) v = Step-IsCoherent step (Steps-IsCoherent run v)

  -- Whatever calls of any threads run in any order, two calls between their two blocks, whose work may
  -- run, are about different keys: one call works for a key at a time.
  pub single_flight :
      {c : RequestCoalescer} (i j : ℕ)
      → Steps key work new_coalescer c
      → is_active (c.phase i) ≡ true
      → is_active (c.phase j) ≡ true
      → key i ≡ key j
      → i ≡ j
  single_flight {c} i j run a b same =
      let v = Steps-IsCoherent run new_coalescer-IsCoherent in
      ground (arith, v.listed i a, v.listed j b, ap (λ k. lookup k c.inflight) same)
