-- ===== src/Core/Eviction/Order.antt =====
-- `SelectVictim` returns the least candidate, in whatever order the candidates come.
use mathlib.Core.List.{
  Mem, Mem-prop, Perm, eq-or-mem_of_mem-cons, mem-cons_self, mem-cons_of_mem, not-mem-nil,
}
use mathlib.Core.List.Perm
use mathlib.Core.Bool.{Bool-set}
use mathlib.Core.Logic.Or
use distributed_cache.Prelude.{
  All, ◌≡◌, refl, sym, ◌∙◌, ap, true, false, List, [], ◌∷◌, arith, inl, inr, Bool-cases,
  if◌then◌else◌, bytes_ltb_irrefl, bytes_ltb_trans, bytes_ltb_asymm, bytes_ltb_total,
}
use distributed_cache.Core.Eviction.{
  EvictionCandidate, ScoreTuple, score, score_ltb, scan, select_victim,
}

score_ltb_irrefl : (a : ScoreTuple) → score_ltb a a ≡ false
unfolding score_ltb
score_ltb_irrefl (s, l, t, k) = ground (arith, bytes_ltb_irrefl k)

score_ltb_trans :
    (a b c : ScoreTuple) → score_ltb b a ≡ false → score_ltb c b ≡ false → score_ltb c a ≡ false
unfolding score_ltb
score_ltb_trans (s, l, t, k) (s', l', t', k') (s'', l'', t'', k'') p q =
    ground (arith, bytes_ltb_trans k k' k'')

score_ltb_asymm : (a b : ScoreTuple) → score_ltb a b ≡ true → score_ltb b a ≡ false
unfolding score_ltb
score_ltb_asymm (s, l, t, k) (s', l', t', k') p = ground (arith, bytes_ltb_asymm k k')

score_ltb_total : (a b : ScoreTuple) → score_ltb a b ≡ false → score_ltb b a ≡ false → a ≡ b
unfolding score_ltb
score_ltb_total (s, l, t, k) (s', l', t', k') p q = ground (arith, bytes_ltb_total k k')

least : EvictionCandidate → EvictionCandidate → EvictionCandidate
least v c = if score_ltb (score c) (score v) then c else v

abbrev pub NotBelow : EvictionCandidate → EvictionCandidate → Type 0
NotBelow x v = score_ltb (score x) (score v) ≡ false

least_bounds : (v c : EvictionCandidate) → NotBelow v (least v c) × NotBelow c (least v c)
unfolding least
least_bounds v c = elim (Bool-cases (score_ltb (score c) (score v))) [
  | inl t ↦ rw t (score_ltb_asymm (score c) (score v) t, score_ltb_irrefl (score c))
  | inr f ↦ rw f (score_ltb_irrefl (score v), f)
]

scan-NotBelow : (v : EvictionCandidate) (cs : List EvictionCandidate) → NotBelow v (scan v cs)
unfolding scan least
scan-NotBelow v [] = score_ltb_irrefl (score v)
scan-NotBelow v (c ∷ cs) = score_ltb_trans _ _ _ (scan-NotBelow (least v c) cs) (least_bounds v c).0

scan_least :
    (v x : EvictionCandidate) (cs : List EvictionCandidate) → Mem x cs → NotBelow x (scan v cs)
unfolding scan least
scan_least v x [] m = absurd (not-mem-nil m)
scan_least v x (c ∷ cs) m =
    Or.elim (Bool-set _ _) (eq-or-mem_of_mem-cons m)
      (λ e. rw e (score_ltb_trans _ _ _ (scan-NotBelow (least v c) cs) (least_bounds v c).1))
      (scan_least (least v c) x cs)

scan-mem : (v : EvictionCandidate) (cs : List EvictionCandidate) → Mem (scan v cs) (v ∷ cs)
unfolding scan
scan-mem v [] = mem-cons_self
scan-mem v (c ∷ cs) = elim (Bool-cases (score_ltb (score c) (score v))) [
  | inl t ↦ rw t (mem-cons_of_mem v (scan-mem c cs))
  | inr f ↦ rw f (
      Or.elim Mem-prop (eq-or-mem_of_mem-cons (scan-mem v cs)) (λ e. rw e mem-cons_self)
        (λ m. mem-cons_of_mem v (mem-cons_of_mem c m)))
]

mem-cons_twice {ℓ} : {A : Type ℓ} {a b : A} {l : List A} → Mem a (b ∷ b ∷ l) → Mem a (b ∷ l)
mem-cons_twice m = Or.elim Mem-prop (eq-or-mem_of_mem-cons m) (λ e. rw e mem-cons_self) (λ n. n)

-- The victim of a list that is not empty is one of its candidates, and no candidate has a smaller
-- score.
pub select_victim_least :
    (c : EvictionCandidate) (cs : List EvictionCandidate)
    → (v : EvictionCandidate) × (select_victim (c ∷ cs) ≡ v.key)
      × Mem v (c ∷ cs)
      × ((x : EvictionCandidate) → Mem x (c ∷ cs) → NotBelow x v)
unfolding select_victim
select_victim_least c cs =
    (scan c (c ∷ cs), refl, mem-cons_twice (scan-mem c (c ∷ cs)), λ x. scan_least c x (c ∷ cs))

key_of_score : (v w : EvictionCandidate) → score v ≡ score w → v.key ≡ w.key
unfolding score
key_of_score v w e = ap (λ s. s.3) e

-- The victim does not depend on the order of the candidates, such as that of a hash map's entries.
pub select_victim-perm :
    (xs ys : List EvictionCandidate) → Perm xs ys → select_victim xs ≡ select_victim ys
select_victim-perm [] [] p = refl
select_victim-perm [] (y ∷ ys) p = absurd (not-mem-nil ((Perm.mem_iff p).1 mem-cons_self))
select_victim-perm (x ∷ xs) [] p = absurd (not-mem-nil ((Perm.mem_iff p).0 mem-cons_self))
select_victim-perm (x ∷ xs) (y ∷ ys) p =
    let (v, ev, mv, lv) = select_victim_least x xs in
    let (w, ew, mw, lw) = select_victim_least y ys in
    let same =
      score_ltb_total (score v) (score w) (lw v ((Perm.mem_iff p).0 mv))
        (lv w ((Perm.mem_iff p).1 mw)) in
    ev ∙ key_of_score v w same ∙ sym ew

scan-All :
    (P : EvictionCandidate → Type 0) (v : EvictionCandidate) (cs : List EvictionCandidate)
    → P v
    → All P cs
    → P (scan v cs)
unfolding scan
scan-All P v [] p h = p
scan-All P v (c ∷ cs) p h = elim (Bool-cases (score_ltb (score c) (score v))) [
  | inl t ↦ rw t (scan-All P c cs h.0 h.1)
  | inr f ↦ rw f (scan-All P v cs p h.1)
]

-- What holds of every candidate holds of the one that is chosen.
pub select_victim-All :
    (P : EvictionCandidate → Type 0) (c : EvictionCandidate) (cs : List EvictionCandidate)
    → All P (c ∷ cs)
    → (v : EvictionCandidate) × (select_victim (c ∷ cs) ≡ v.key) × P v
unfolding select_victim
select_victim-All P c cs h = (scan c (c ∷ cs), refl, scan-All P c (c ∷ cs) h.0 h)
