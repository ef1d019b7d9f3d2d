-- ===== src/Proxy/Http.antt =====
-- The parts of net/http that proxy.go and main.go use: requests, responses and `http.Error`.
use gql_firewall.Base.{ℕ, Bytes, [], ◌++◌, none, some, Map, lookup, insert, codes}

pub data Method : Type 0 where
  get post put delete : Method
  other : Bytes → Method

-- A body that can be read, with its bytes, and one whose reading fails.
pub data Body : Type 0 where
  content : Bytes → Body
  broken : Body

-- `headers` and `url_query` hold the first value of each name.
pub record Request : Type 0 where
  pub method : Method
  pub path : Bytes
  pub headers : Map Bytes
  pub url_query : Map Bytes
  pub body : Body
  pub content_length : ℕ
  pub remote_addr : Bytes
  pub host : Bytes

pub record Response : Type 0 where
  pub status : ℕ
  pub headers : Map Bytes
  pub body : Bytes

-- `Header.Get` and `Values.Get`: a missing name reads as "".
unfoldable pub get_value : Bytes → Map Bytes → Bytes
get_value name values = elim (lookup name values) [ none ↦ [] | some v ↦ v ]

-- How a handler ends: it answers, it hands the request with the response headers set so far to the
-- upstream, or it panics.
pub data Outcome : Type 0 where
  replied : Response → Outcome
  forwarded : (response_headers : Map Bytes) → Request → Outcome
  panicked : Outcome

-- `http.Error`, with the response headers that were set before.
unfoldable pub http_error : Map Bytes → Bytes → ℕ → Response
http_error headers message status = record {
  status = status;
  headers =
      insert (codes "X-Content-Type-Options") (codes "nosniff")
        (insert (codes "Content-Type") (codes "text/plain; charset=utf-8") headers);
  body = message ++ codes "\n";
}
