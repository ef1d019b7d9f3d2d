-- ===== src/Server/CacheKey.antt =====
-- decisionCacheKey and simpleHash (main.go). The hash is FNV-1a on uint64, with its wrap-around
-- written out.
use Prim.Native.Nat.{bit_xor}
use gql_firewall.Base.{
  decimal, hex8, ℕ, ◌*◌, ◌%◌, ◌^◌, Bytes, List, [], ◌∷◌, ◌++◌, codes, ◌≡◌, refl,
}
use gql_firewall.Parser.Info.{QueryInfo}

abbrev pub offset_basis : ℕ
offset_basis = 14695981039346656037

abbrev pub fnv_prime : ℕ
fnv_prime = 1099511628211

-- `h ^= uint64(c); h *= 1099511628211`
unfoldable pub hash_byte : ℕ → ℕ → ℕ
hash_byte h c = (bit_xor h c * fnv_prime) % 2 ^ 64

unfoldable pub hash_bytes : ℕ → Bytes → ℕ
unfolding hash_byte
hash_bytes h [] = h
hash_bytes h (c ∷ s) = hash_bytes (hash_byte h c) s

unfoldable pub hash_parts : ℕ → List Bytes → ℕ
unfolding hash_bytes
hash_parts h [] = h
hash_parts h (s ∷ parts) = hash_parts (hash_bytes h s) parts

unfoldable pub simple_hash : List Bytes → Bytes
unfolding hash_parts hex8
simple_hash parts = hex8 (hash_parts offset_basis parts)

unfoldable pub decision_cache_key : QueryInfo → Bytes
unfolding simple_hash decimal
decision_cache_key info =
    info.operation_type
    ++ (b'|' ∷ decimal info.depth
        ++ (b'|' ∷ decimal info.field_count ++ (b'|' ∷ simple_hash info.field_paths)))

-- FNV-1a of the empty input and of "a", by the published constants.
simple_hash_empty : simple_hash [] ≡ codes "cbf29ce484222325"
unfolding simple_hash
simple_hash_empty = refl

simple_hash_a : simple_hash (codes "a" ∷ []) ≡ codes "af63dc4c8601ec8c"
unfolding simple_hash
simple_hash_a = refl
