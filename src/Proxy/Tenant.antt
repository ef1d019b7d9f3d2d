-- ===== src/Proxy/Tenant.antt =====
-- extractTenantID and hasLeadingContent (proxy.go).
pub mod Laws
use gql_firewall.Base.{
  get_or, take, ltb, length, ℕ, zero, suc, Bytes, Bool, true, false, not, ◌&&◌, ◌||◌, List, [], ◌∷◌,
  ◌++◌, ◌==◌, if◌then◌else◌, Option, none, some, is_empty,
}

unfoldable pub has_leading_content : Bytes → Bool
has_leading_content [] = false
has_leading_content (c ∷ s) =
    if not (c == b'_') && not (c == b' ') then true else has_leading_content s

-- The loop, from position `i - 1` down to 0.
unfoldable pub split_below : Bytes → ℕ → Bytes
unfolding has_leading_content
split_below key zero = key
split_below key (suc i) =
    let rest = split_below key i in
    if get_or key i 0 == b'_' && (has_leading_content (take i key) && ltb (suc i) (length key))
    then take i key
    else rest

unfoldable pub extract_tenant_id : Bytes → Bytes
unfolding split_below
extract_tenant_id key = if is_empty key then [] else split_below key (length key)
