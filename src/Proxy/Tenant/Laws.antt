-- ===== src/Proxy/Tenant/Laws.antt =====
-- What a tenant ID is (extractTenantID, proxy.go): the part of the API key before its last underscore
-- that separates something.
use gql_firewall.Base.{
  ℕ, zero, suc, ◌+◌, ◌<◌, Bytes, true, ◌&&◌, [], ◌∷◌, ◌++◌, ◌==◌, length, length-append, take, drop,
  get_or, ltb, ◌≡◌, ◌≢◌, ◌⊎◌, inl, inr, refl, ap, ◌∙◌, All, Bool-cases, arith,
}
use gql_firewall.Proxy.Tenant.{has_leading_content, split_below, extract_tenant_id}

-- `key` is `tenant`, an underscore and something, and `tenant` is more than underscores and spaces.
pub record SplitsOff (key tenant : Bytes) : Type 0 where
  pub secret : Bytes
  pub joined : key ≡ tenant ++ b'_' ∷ secret
  pub secret_filled : secret ≢ []
  pub tenant_filled : has_leading_content tenant ≡ true

take-get-drop : (s : Bytes) (i : ℕ) → i < length s → s ≡ take i s ++ get_or s i 0 ∷ drop (suc i) s
take-get-drop [] i h = absurd (omega arith)
take-get-drop (c ∷ s) zero h = refl
take-get-drop (c ∷ s) (suc i) h = ap (◌∷◌ c) (take-get-drop s i (omega arith))

drop-ne-nil : (s : Bytes) (i : ℕ) → i < length s → drop i s ≢ []
drop-ne-nil [] i h = absurd (omega arith)
drop-ne-nil (c ∷ s) zero h = λ e. ground arith
drop-ne-nil (c ∷ s) (suc i) h = drop-ne-nil s i (omega arith)

split_below_sound :
    (key : Bytes) (i : ℕ) → (split_below key i ≡ key) ⊎ SplitsOff key (split_below key i)
unfolding split_below
split_below_sound key zero = inl refl
split_below_sound key (suc i) =
    elim (Bool-cases
      (get_or key i 0 == b'_' && (has_leading_content (take i key) && ltb (suc i) (length key)))) [
        | inr other ↦ rw other (split_below_sound key i)
        | inl here ↦
            let less : suc i < length key = ground arith in
            let score : get_or key i 0 ≡ b'_' = ground arith in
            rw here (
              inr (record {
                secret = drop (suc i) key;
                joined = rw score at (take-get-drop key i (omega arith));
                secret_filled = drop-ne-nil key (suc i) less;
                tenant_filled = ground arith;
              }))
      ]

-- The tenant of a key is the whole key, or a part of it before an underscore with something behind it,
-- which is not made of underscores and spaces only.
extract_tenant_id_sound :
    (key : Bytes) → (extract_tenant_id key ≡ key) ⊎ SplitsOff key (extract_tenant_id key)
unfolding extract_tenant_id
extract_tenant_id_sound [] = inl refl
extract_tenant_id_sound (c ∷ key) = split_below_sound (c ∷ key) (length (c ∷ key))

get_or-append : (s t : Bytes) (j : ℕ) → get_or (s ++ t) (length s + j) 0 ≡ get_or t j 0
get_or-append [] t j = let e : 0 + j ≡ j = omega arith in rw e
get_or-append (c ∷ s) t j =
    let e : suc (length s) + j ≡ suc (length s + j) = omega arith in rw e (get_or-append s t j)

take-length-append : (s t : Bytes) → take (length s) (s ++ t) ≡ s
take-length-append [] t = refl
take-length-append (c ∷ s) t = ap (◌∷◌ c) (take-length-append s t)

get_or-ne : (s : Bytes) (j : ℕ) → All (λ c. c ≢ b'_') s → get_or s j 0 ≢ b'_'
get_or-ne [] j h = omega arith
get_or-ne (c ∷ s) zero h = h.0
get_or-ne (c ∷ s) (suc j) h = get_or-ne s j h.1

split_below-skip :
    (key : Bytes) (i : ℕ) → get_or key i 0 ≢ b'_' → split_below key (suc i) ≡ split_below key i
unfolding split_below
split_below-skip key i h = ground arith

extract_tenant_id-split_below :
    (key : Bytes) → 0 < length key → extract_tenant_id key ≡ split_below key (length key)
unfolding extract_tenant_id
extract_tenant_id-split_below [] h = absurd (omega arith)
extract_tenant_id-split_below (c ∷ key) h = refl

module _ (tenant secret : Bytes) (filled : has_leading_content tenant ≡ true)
    (plain : All (λ c. c ≢ b'_') secret) (some_secret : secret ≢ []) where
  length-secret : 0 < length secret
  length-secret = go secret some_secret
    where
      go : (s : Bytes) → s ≢ [] → 0 < length s
      go [] h = absurd (h refl)
      go (c ∷ s) h = omega arith

  split_below-here : split_below (tenant ++ b'_' ∷ secret) (suc (length tenant)) ≡ tenant
  unfolding split_below
  split_below-here =
      let e : length tenant + 0 ≡ length tenant = omega arith in
      let score : get_or (tenant ++ b'_' ∷ secret) (length tenant) 0 ≡ b'_' =
        rw e at (get_or-append tenant (b'_' ∷ secret) 0) in
      ground (
        arith,
        take-length-append tenant (b'_' ∷ secret),
        length-append tenant (b'_' ∷ secret),
        length-secret,
      )

  split_below-joined :
      (j : ℕ) → split_below (tenant ++ b'_' ∷ secret) (suc (length tenant + j)) ≡ tenant
  split_below-joined zero =
      let e : length tenant + 0 ≡ length tenant = omega arith in rw e split_below-here
  split_below-joined (suc j) =
      let plain_here = get_or-ne secret j plain in
      let e : length tenant + suc j ≡ suc (length tenant + j) = omega arith in
      let at_secret : get_or (tenant ++ b'_' ∷ secret) (suc (length tenant + j)) 0 ≢ b'_' =
        rw e at (rw (← get_or-append tenant (b'_' ∷ secret) (suc j)) at plain_here) in
      rw e (split_below-skip _ (suc (length tenant + j)) at_secret ∙ split_below-joined j)

-- A key that is issued as a tenant, an underscore and a secret without underscores is given back to its
-- tenant, if the tenant is not made of underscores and spaces only.
pub extract_tenant_id-joined :
    (tenant secret : Bytes)
    → has_leading_content tenant ≡ true
    → All (λ c. c ≢ b'_') secret
    → secret ≢ []
    → extract_tenant_id (tenant ++ b'_' ∷ secret) ≡ tenant
extract_tenant_id-joined tenant secret filled plain some_secret =
    let key = tenant ++ b'_' ∷ secret in
    let e : length key ≡ suc (length tenant + length secret) =
      omega (arith, length-append tenant (b'_' ∷ secret)) in
    extract_tenant_id-split_below key (omega arith)
    ∙ rw e (split_below-joined tenant secret filled plain some_secret (length secret))
