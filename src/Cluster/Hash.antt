-- ===== src/Cluster/Hash.antt =====
-- src/cluster/hash_ring.cpp: `Fnv1a`, and the tokens of the virtual nodes.
use distributed_cache.Prelude.{
  ℕ, zero, suc, ◌+◌, ◌*◌, ◌/◌, ◌%◌, ◌^◌, Bytes, [], ◌∷◌, ◌++◌, ltb, nat_eqb, codes, if◌then◌else◌,
}
use distributed_cache.Prelude.Decimal.{to_string}

-- The exclusive or of the lowest bits.
unfoldable pub bit_xor : ℕ → ℕ → ℕ → ℕ
bit_xor zero a b = 0
bit_xor (suc bits) a b =
    (if nat_eqb (a % 2) (b % 2) then 0 else 1) + 2 * bit_xor bits (a / 2) (b / 2)

abbrev pub fnv_offset : ℕ
fnv_offset = 14695981039346656037

abbrev pub fnv_prime : ℕ
fnv_prime = 1099511628211

unfoldable pub fnv1a_from : ℕ → Bytes → ℕ
unfolding bit_xor
fnv1a_from hash [] = hash
fnv1a_from hash (ch ∷ value) = fnv1a_from (bit_xor 64 hash ch * fnv_prime % 2 ^ 64) value

unfoldable pub hash64 : Bytes → ℕ
unfolding fnv1a_from
hash64 value = fnv1a_from fnv_offset value

unfoldable pub token_for : Bytes → ℕ → ℕ → ℕ
unfolding hash64 to_string
token_for node_id vnode attempt =
    let token = node_id ++ codes "#" ++ to_string vnode in
    hash64 (if ltb 0 attempt then token ++ codes "#" ++ to_string attempt else token)
