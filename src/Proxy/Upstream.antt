-- ===== src/Proxy/Upstream.antt =====
-- New, MustNew and newHostFixedReverseProxy (proxy.go): the handler that is made for an upstream URL,
-- and where its requests go.
pub mod Laws
use gql_firewall.Base.{
  ℕ, ◌*◌, Bytes, false, not, ◌&&◌, ◌||◌, Option, none, some, is_empty, bytes_equal, if◌then◌else◌,
  codes,
}
use gql_firewall.Proxy.Http.{Request}
use gql_firewall.Proxy.Handler.{Handler}

-- What is read of a url.URL.
pub record Url : Type 0 where
  pub scheme : Bytes
  pub host : Bytes
  pub path : Bytes

-- A request on its way to the upstream: `scheme` and `url_host` are those of its URL, and
-- `request.host` is its Host header.
pub record Outgoing : Type 0 where
  pub scheme : Bytes
  pub url_host : Bytes
  pub request : Request

-- url.Parse, and the director of httputil.NewSingleHostReverseProxy.
pub record UrlLibrary : Type 0 where
  pub parse_url : Bytes → Option Url
  pub single_host_director : Url → Outgoing → Outgoing

abbrev pub default_max_body_bytes : ℕ
default_max_body_bytes = 1 * 1024 * 1024

-- The director of `newHostFixedReverseProxy`.
unfoldable pub host_fixed_director : UrlLibrary → Url → Outgoing → Outgoing
host_fixed_director lib target r =
    let r' = lib.single_host_director target r in
    record r' { request = record r'.request { host = r'.url_host } }

pub data UrlError : Type 0 where
  unparsed_url missing_scheme_or_host scheme_not_http : UrlError

-- A Handler with its `upstream`.
pub record Proxy (S : Type 0) : Type 0 where
  pub handler : Handler S
  pub director : Outgoing → Outgoing

pub data Created (S : Type 0) : Type 0 where
  created : Proxy S → Created S
  refused : UrlError → Created S

-- `parts` has what the handler depends on; the fields that `New` sets are set here.
unfoldable pub new_proxy : {S : Type 0} → UrlLibrary → Handler S → Bytes → Created S
unfolding host_fixed_director
new_proxy lib parts upstream_url = elim (lib.parse_url upstream_url) [
  | none ↦ refused unparsed_url
  | some u ↦
      if is_empty u.scheme || is_empty u.host
      then refused missing_scheme_or_host
      else if not (bytes_equal u.scheme (codes "http"))
          && not (bytes_equal u.scheme (codes "https"))
      then refused scheme_not_http
      else created (record {
        handler = record parts {
          max_body_bytes = default_max_body_bytes;
          disable_panic_recovery = false;
        };
        director = host_fixed_director lib u;
      })
]

-- A panic is `none`.
unfoldable pub must_new : {S : Type 0} → UrlLibrary → Handler S → Bytes → Option (Proxy S)
unfolding new_proxy
must_new lib parts upstream_url = elim (new_proxy lib parts upstream_url) [
  | created p ↦ some p
  | refused e ↦ none
]
