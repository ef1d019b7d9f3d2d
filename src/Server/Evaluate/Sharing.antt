-- ===== src/Server/Evaluate/Sharing.antt =====
-- The queries that share one cached decision (decisionCacheKey, main.go): the key is made of the
-- operation type, the depth, the field count and the bytes of all field paths, one after the other.
use gql_firewall.Base.{
  List, [], ◌∷◌, ◌++◌, ℕ, ◌+◌, ◌<◌, Bytes, false, none, some, ◌≡◌, refl, sym, ap, ◌∙◌, arith,
  lookup-insert, bytes_equal_refl, Option-cases, inl, inr,
}
use gql_firewall.Opa.Json.{Result}
use gql_firewall.Parser.Info.{QueryInfo}
use gql_firewall.Parser.Schema.{validate}
use gql_firewall.Server.CacheKey.{
  decision_cache_key, simple_hash, hash_parts, hash_bytes, hash_byte, offset_basis,
}
use gql_firewall.Server.Evaluate.{
  Config, State, fresh, cache_lookup, cache_store, answer_cached, enforce, evaluate_opa,
  evaluate_policy, schema_refusal, evaluate,
}
use gql_firewall.Server.Evaluate.Outcomes.{asked, cached_at}

-- All the bytes that `simpleHash` reads; nothing stands between two paths.
abbrev pub joined : List Bytes → Bytes
joined [] = []
joined (s ∷ parts) = s ++ joined parts

hash_bytes-append : (h : ℕ) (s t : Bytes) → hash_bytes h (s ++ t) ≡ hash_bytes (hash_bytes h s) t
unfolding hash_bytes
hash_bytes-append h [] t = refl
hash_bytes-append h (c ∷ s) t = hash_bytes-append (hash_byte h c) s t

hash_parts-joined : (h : ℕ) (parts : List Bytes) → hash_parts h parts ≡ hash_bytes h (joined parts)
unfolding hash_parts hash_bytes
hash_parts-joined h [] = refl
hash_parts-joined h (s ∷ parts) =
    hash_parts-joined (hash_bytes h s) parts ∙ sym (hash_bytes-append h s (joined parts))

-- The two queries agree on what the key is made of.
pub record SharesKey (a b : QueryInfo) : Type 0 where
  pub operation_type : a.operation_type ≡ b.operation_type
  pub depth : a.depth ≡ b.depth
  pub field_count : a.field_count ≡ b.field_count
  pub paths_text : joined a.field_paths ≡ joined b.field_paths

SharesKey-key : (a b : QueryInfo) → SharesKey a b → decision_cache_key a ≡ decision_cache_key b
unfolding decision_cache_key simple_hash
SharesKey-key a b h =
    let same : hash_parts offset_basis a.field_paths ≡ hash_parts offset_basis b.field_paths =
      hash_parts-joined offset_basis a.field_paths
      ∙ ap (hash_bytes offset_basis) h.paths_text
      ∙ sym (hash_parts-joined offset_basis b.field_paths) in
    rw (h.operation_type, h.depth, h.field_count, same) refl

-- The two queries differ in nothing that the schema and the key depend on.
pub record LooksLike (a b : QueryInfo) : Type 0 where
  pub operation_type : a.operation_type ≡ b.operation_type
  pub depth : a.depth ≡ b.depth
  pub field_count : a.field_count ≡ b.field_count
  pub field_paths : a.field_paths ≡ b.field_paths

LooksLike-refusal :
    (c : Config) (a b : QueryInfo) → LooksLike a b → schema_refusal c a ≡ schema_refusal c b
unfolding schema_refusal validate
LooksLike-refusal c a b h = elim (Option-cases c.schema) [
  | inl absent ↦ rw (absent, schema_refusal)
  | inr (schema, present) ↦ rw (present, schema_refusal, h.operation_type, h.field_paths)
]

-- The decision on OPA's answer is in the cache until its expiry.
stored :
    (c : Config) (later now : ℕ) (key : Bytes) (r : Result) (s : State)
    → 0 < c.cache_ttl
    → now < later + c.cache_ttl
    → c.opa_audit_only ≡ false
    → (cache_lookup c.cache_ttl key now (evaluate_opa c later key (some r) s).1 ≡ some r)
      × ((evaluate_opa c later key (some r) s).0 ≡ r)
unfolding cache_lookup fresh evaluate_opa cache_store enforce
stored c later now key r s on early enforced = ground (
  arith,
  bytes_equal_refl key,
  lookup-insert key key (record { result = r; expiry = later + c.cache_ttl }) s.cache,
)

answered_from_cache :
    (c : Config) (now later : ℕ) (b : QueryInfo) (s : State) (r : Result)
    → schema_refusal c b ≡ none
    → c.opa_audit_only ≡ false
    → cached_at c now b s ≡ some r
    → (evaluate c now later b s).0 ≡ r
unfolding evaluate evaluate_policy answer_cached
answered_from_cache c now later b s r fine enforced hit =
    rw (fine, evaluate, hit, evaluate_policy) (rw enforced refl)

pub evaluate-collides :
    (c : Config) (now later now' later' : ℕ) (a b : QueryInfo) (r : Result) (s : State)
    → SharesKey a b
    → 0 < c.cache_ttl
    → c.opa_audit_only ≡ false
    → schema_refusal c a ≡ none
    → schema_refusal c b ≡ none
    → cached_at c now a s ≡ none
    → c.opa (asked c a) ≡ some r
    → now' < later + c.cache_ttl
    → ((evaluate c now later a s).0 ≡ r)
      × ((evaluate c now' later' b (evaluate c now later a s).1).0 ≡ r)
unfolding evaluate evaluate_policy
evaluate-collides c now later now' later' a b r s alike on enforced fine fine' miss answer early =
    let kept = stored c later now' (decision_cache_key a) r s on early enforced in
    let first : evaluate c now later a s ≡ evaluate_opa c later (decision_cache_key a) (some r) s =
      rw (fine, evaluate, miss, evaluate_policy, answer) refl in
    (
      ap (λ p. p.0) first ∙ kept.1,
      rw first (
          answered_from_cache c now' later' b _ r fine' enforced
            (rw (← SharesKey-key a b alike) kept.0)),
    )

-- In particular queries with the same field paths share their decisions, whoever the tenant is.
evaluate-shared :
    (c : Config) (now later now' later' : ℕ) (a b : QueryInfo) (r : Result) (s : State)
    → LooksLike a b
    → 0 < c.cache_ttl
    → c.opa_audit_only ≡ false
    → schema_refusal c a ≡ none
    → cached_at c now a s ≡ none
    → c.opa (asked c a) ≡ some r
    → now' < later + c.cache_ttl
    → ((evaluate c now later a s).0 ≡ r)
      × ((evaluate c now' later' b (evaluate c now later a s).1).0 ≡ r)
evaluate-shared c now later now' later' a b r s alike on enforced fine miss answer early =
    evaluate-collides c now later now' later' a b r s
      (record {
        operation_type = alike.operation_type;
        depth = alike.depth;
        field_count = alike.field_count;
        paths_text = ap joined alike.field_paths;
      })
      on enforced fine (sym (LooksLike-refusal c a b alike) ∙ fine) miss answer early
