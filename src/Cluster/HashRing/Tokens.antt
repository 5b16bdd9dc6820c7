-- ===== src/Cluster/HashRing/Tokens.antt =====
-- On the ring and the lists of the tokens of the nodes, under a removal.
use distributed_cache.Prelude.{
  ℕ, ◌+◌, Bytes, nat_key, bytes_key, bytes_eqb, bytes_eqb_iff, nat_eqb, nat_eqb_iff, ◌≡◌, inl, inr,
  refl, Bool, false, ◌&&◌, ◌||◌, Option, none, some, List, [], ◌∷◌, ◌++◌, length, arith,
  Option-cases, if◌then◌else◌,
}
use distributed_cache.Prelude.Map.{Map, lookup, lookup-erase, IsDistinct, erase-IsDistinct}
use distributed_cache.Cluster.HashRing.{HashRing, emplace, drop_token, drop_tokens, remove_node}
use distributed_cache.Cluster.HashRing.Order.{IsSorted, IsSorted→IsDistinct, drop_token-IsSorted}

unfoldable pub has_token : ℕ → List ℕ → Bool
has_token t [] = false
has_token t (u ∷ us) = nat_eqb u t || has_token t us

pub has_token-append :
    (t u : ℕ) (us : List ℕ) → has_token t (us ++ u ∷ []) ≡ (has_token t us || nat_eqb u t)
unfolding has_token
has_token-append t u [] = ground arith
has_token-append t u (v ∷ us) = ground (arith, has_token-append t u us)

-- The node is the owner of what was found.
abbrev pub owned : Bytes → Option Bytes → Bool
owned n none = false
owned n (some o) = bytes_eqb o n

pub lookup-emplace :
    (j t : ℕ) (n : Bytes) (m : Map ℕ Bytes)
    → lookup t m ≡ none
    → lookup j (emplace t n m) ≡ (if nat_eqb t j then some n else lookup j m)
unfolding lookup emplace
lookup-emplace j t n [] e = refl
lookup-emplace j t n (p ∷ m) e = ground (arith, e, lookup-emplace j t n m)

pub length-emplace :
    (t : ℕ) (n : Bytes) (m : Map ℕ Bytes)
    → lookup t m ≡ none
    → length (emplace t n m) ≡ length m + 1
unfolding lookup emplace
length-emplace t n [] e = refl
length-emplace t n (p ∷ m) e = ground (arith, e, length-emplace t n m)

lookup-drop_token :
    (j : ℕ) (n : Bytes) (t : ℕ) (m : Map ℕ Bytes)
    → IsSorted m
    → lookup j (drop_token n t m)
      ≡ (if nat_eqb t j && owned n (lookup j m) then none else lookup j m)
unfolding drop_token
lookup-drop_token j n t m s =
    ground (arith, lookup-erase t j m (IsSorted→IsDistinct m s), nat_eqb_iff t j)

lookup-drop_tokens :
    (j : ℕ) (n : Bytes) (ts : List ℕ) (m : Map ℕ Bytes)
    → IsSorted m
    → lookup j (drop_tokens n ts m)
      ≡ (if has_token j ts && owned n (lookup j m) then none else lookup j m)
unfolding drop_tokens has_token
lookup-drop_tokens j n [] m s = refl
lookup-drop_tokens j n (t ∷ ts) m s = ground (
  arith,
  lookup-drop_token j n t m s,
  lookup-drop_tokens j n ts (drop_token n t m) (drop_token-IsSorted n t m s),
)

-- The tokens of a node, none if it has no list.
abbrev pub tokens_of : Bytes → HashRing → List ℕ
tokens_of n r = elim (lookup n r.node_tokens) [ none ↦ [] | some ts ↦ ts ]

-- A token stands in the ring under a node exactly if it stands in the node's list.
pub record IsAgreed (r : HashRing) : Type 0 where
  pub distinct : IsDistinct r.node_tokens
  pub listed : (j : ℕ) (n : Bytes) → owned n (lookup j r.ring) ≡ has_token j (tokens_of n r)

-- A removal takes the node's tokens from the ring, and no others.
pub lookup-remove_node :
    (j : ℕ) (n : Bytes) (r : HashRing)
    → IsSorted r.ring
    → IsAgreed r
    → lookup j (remove_node n r).ring
      ≡ (if owned n (lookup j r.ring) then none else lookup j r.ring)
unfolding remove_node has_token
lookup-remove_node j n r s g = elim (Option-cases (lookup n r.node_tokens)) [
  | inl e ↦ ground (arith, e, g.listed j n)
  | inr (ts, found) ↦ ground (arith, found, g.listed j n, lookup-drop_tokens j n ts r.ring s)
]

pub tokens_of-remove_node :
    (j n : Bytes) (r : HashRing)
    → IsAgreed r
    → tokens_of j (remove_node n r) ≡ (if bytes_eqb n j then [] else tokens_of j r)
unfolding remove_node
tokens_of-remove_node j n r g = elim (Option-cases (lookup n r.node_tokens)) [
  | inl e ↦ ground (arith, e, bytes_eqb_iff n j)
  | inr (ts, found) ↦ ground (arith, found, lookup-erase n j r.node_tokens g.distinct)
]

remove_node-IsDistinct :
    (n : Bytes) (r : HashRing) → IsDistinct r.node_tokens → IsDistinct (remove_node n r).node_tokens
unfolding remove_node
remove_node-IsDistinct n r d = elim (Option-cases (lookup n r.node_tokens)) [
  | inl e ↦ rw (remove_node, e) d
  | inr (ts, found) ↦ rw (remove_node, found) (erase-IsDistinct n r.node_tokens d)
]

pub remove_node-IsAgreed :
    (n : Bytes) (r : HashRing) → IsSorted r.ring → IsAgreed r → IsAgreed (remove_node n r)
unfolding has_token
remove_node-IsAgreed n r s g = record {
  distinct = remove_node-IsDistinct n r g.distinct;
  listed = λ j k. elim (Option-cases (lookup j r.ring)) [
    | inl e ↦
        ground (arith, e, g.listed j k, lookup-remove_node j n r s g, tokens_of-remove_node k n r g)
    | inr (o, found) ↦ ground (
      arith,
      found,
      g.listed j k,
      lookup-remove_node j n r s g,
      tokens_of-remove_node k n r g,
      bytes_eqb_iff n k,
      bytes_eqb_iff o n,
      bytes_eqb_iff o k,
    )
  ];
}
