-- ===== src/Proxy/Upstream/Laws.antt =====
-- Where a handler that New (proxy.go) made sends its requests.
use gql_firewall.Base.{
  Bytes, Bool, true, false, not, ◌&&◌, ◌||◌, none, some, [], ◌≡◌, ◌≢◌, ◌↔◌, ◌⊎◌, inl, inr, sym,
  subst, ap, ◌∙◌, is_empty, bytes_equal, bytes_equal_iff, codes, Bool-cases, Option-cases, arith,
}
use gql_firewall.Proxy.Handler.{Handler}
use gql_firewall.Proxy.Upstream.{
  Url, Outgoing, UrlLibrary, default_max_body_bytes, host_fixed_director, Proxy, created, new_proxy,
}

-- What httputil documents of NewSingleHostReverseProxy: it routes requests to the scheme and host of the
-- target.
abbrev pub RoutesToTarget : UrlLibrary → Type 0
RoutesToTarget lib =
    (u : Url) (r : Outgoing)
    → ((lib.single_host_director u r).scheme ≡ u.scheme)
      × ((lib.single_host_director u r).url_host ≡ u.host)

-- An upstream that New accepts.
pub IsHttpUrl : Url → Type 0
IsHttpUrl u = (u.host ≢ []) × ((u.scheme ≡ codes "http") ⊎ (u.scheme ≡ codes "https"))

is_http : Url → Bool
is_http u =
    not (is_empty u.scheme || is_empty u.host)
    && (bytes_equal u.scheme (codes "http") || bytes_equal u.scheme (codes "https"))

is_http_iff : (u : Url) → (is_http u ≡ true) ↔ IsHttpUrl u
unfolding is_http IsHttpUrl
is_http_iff u =
    ground
      (arith, bytes_equal_iff u.scheme (codes "http"), bytes_equal_iff u.scheme (codes "https"))

-- The proxy that New makes for a URL.
abbrev pub proxy_to : {S : Type 0} → UrlLibrary → Handler S → Url → Proxy S
proxy_to lib parts u = record {
  handler = record parts {
    max_body_bytes = default_max_body_bytes;
    disable_panic_recovery = false;
  };
  director = host_fixed_director lib u;
}

new_proxy_http :
    {S : Type 0} (lib : UrlLibrary) (parts : Handler S) (text : Bytes) (u : Url)
    → lib.parse_url text ≡ some u
    → is_http u ≡ true
    → new_proxy lib parts text ≡ created (proxy_to lib parts u)
unfolding new_proxy is_http
new_proxy_http lib parts text u e h = rw (e, new_proxy) (ground arith)

new_proxy_not_http :
    {S : Type 0} (lib : UrlLibrary) (parts : Handler S) (text : Bytes) (u : Url) (p : Proxy S)
    → lib.parse_url text ≡ some u
    → is_http u ≡ false
    → new_proxy lib parts text ≢ created p
unfolding new_proxy is_http
new_proxy_not_http lib parts text u p e h c = ground arith

new_proxy_unparsed :
    {S : Type 0} (lib : UrlLibrary) (parts : Handler S) (text : Bytes) (p : Proxy S)
    → lib.parse_url text ≡ none
    → new_proxy lib parts text ≢ created p
unfolding new_proxy
new_proxy_unparsed lib parts text p e c = ground arith

created-eq : {S : Type 0} (p q : Proxy S) → created p ≡ created q → p ≡ q
created-eq p q e = cc

-- `New` gives a proxy exactly for a text that parses to an http or https URL with a host, and that proxy
-- has the default body limit and recovers from panics.
pub new_proxy_iff :
    {S : Type 0} (lib : UrlLibrary) (parts : Handler S) (text : Bytes) (p : Proxy S)
    → (new_proxy lib parts text ≡ created p)
      ↔ ((u : Url) × (lib.parse_url text ≡ some u) × IsHttpUrl u × (p ≡ proxy_to lib parts u))
new_proxy_iff lib parts text p = (
  λ c. elim (Option-cases (lib.parse_url text)) [
    | inl bad ↦ absurd (new_proxy_unparsed lib parts text p bad c)
    | inr (u, e) ↦ elim (Bool-cases (is_http u)) [
      | inr other ↦ absurd (new_proxy_not_http lib parts text u p e other c)
      | inl http ↦
          let made = new_proxy_http lib parts text u e http in
          (u, e, (is_http_iff u).0 http, created-eq p (proxy_to lib parts u) (sym c ∙ made))
    ]
  ],
  λ (u, e, http, same).
      new_proxy_http lib parts text u e ((is_http_iff u).1 http) ∙ ap created (sym same),
)

-- A request that goes to the target, with the target's Host header.
pub record GoesTo (u : Url) (sent : Outgoing) : Type 0 where
  pub scheme : sent.scheme ≡ u.scheme
  pub url_host : sent.url_host ≡ u.host
  pub host : sent.request.host ≡ u.host

host_fixed_director-GoesTo :
    (lib : UrlLibrary) (u : Url) (r : Outgoing)
    → RoutesToTarget lib
    → GoesTo u (host_fixed_director lib u r)
unfolding host_fixed_director
host_fixed_director-GoesTo lib u r routes = record {
  scheme = (routes u r).0;
  url_host = (routes u r).1;
  host = (routes u r).1;
}

-- If httputil's director routes to its target, then a proxy that `New` made sends every request, whatever
-- its Host header and its URL say, to the http or https URL that it was made for, and with the host of
-- that URL for a Host header.
pub new_proxy-GoesTo :
    {S : Type 0} (lib : UrlLibrary) (parts : Handler S) (text : Bytes) (p : Proxy S)
    → RoutesToTarget lib
    → new_proxy lib parts text ≡ created p
    → (u : Url) × (lib.parse_url text ≡ some u)
      × IsHttpUrl u
      × ((r : Outgoing) → GoesTo u (p.director r))
new_proxy-GoesTo lib parts text p routes c =
    let (u, e, http, same) = (new_proxy_iff lib parts text p).0 c in
    (
      u,
      e,
      http,
      λ r.
          subst (λ q. GoesTo u (q.director r)) (sym same)
            (host_fixed_director-GoesTo lib u r routes),
    )
