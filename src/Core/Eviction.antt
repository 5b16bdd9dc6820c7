-- ===== src/Core/Eviction.antt =====
-- src/core/eviction: which entry the store gives up. The proofs are in the module below.
pub mod Order
use distributed_cache.Prelude.{
  ℕ, Bytes, Bool, true, false, List, [], ◌∷◌, ltb, if◌then◌else◌, bytes_ltb,
}

pub record EvictionCandidate : Type 0 where
  pub key : Bytes
  pub lfu_count : ℕ
  pub last_touch_ns : ℕ
  pub in_protected_segment : Bool

-- `std::tuple<int, uint32_t, uint64_t, const std::string&>`
abbrev pub ScoreTuple : Type 0
ScoreTuple = ℕ × ℕ × ℕ × Bytes

unfoldable pub score : EvictionCandidate → ScoreTuple
score c = (if c.in_protected_segment then 1 else 0, c.lfu_count, c.last_touch_ns, c.key)

-- The tuple's `operator<`: lexicographic.
unfoldable pub score_ltb : ScoreTuple → ScoreTuple → Bool
score_ltb (s, l, t, k) (s', l', t', k') =
    if ltb s s'
    then true
    else if ltb s' s
    then false
    else if ltb l l'
    then true
    else if ltb l' l
    then false
    else if ltb t t'
    then true
    else if ltb t' t
    then false
    else bytes_ltb k k'

-- The loop over the candidates, with the victim so far.
unfoldable pub scan : EvictionCandidate → List EvictionCandidate → EvictionCandidate
scan victim [] = victim
scan victim (c ∷ cs) = scan (if score_ltb (score c) (score victim) then c else victim) cs

-- `SelectVictim`: the empty key if there is no candidate.
unfoldable pub select_victim : List EvictionCandidate → Bytes
unfolding scan
select_victim [] = []
select_victim (c ∷ cs) = (scan c (c ∷ cs)).key
