-- ===== src/Proxy/Mediation/Queries.antt =====
-- The queries that an inspection of proxy.go asked the evaluator about, each with the text that it was
-- parsed from: the `query` of its body, or of its item of a batch, or of the URL.
use gql_firewall.Base.{Bytes, List, [], ◌∷◌, some, codes, All, ◌≡◌, ◌∙◌, ap, arith}
use gql_firewall.Parser.Info.{QueryInfo}
use gql_firewall.Parser.Analysis.{ok, parse_graphql}
use gql_firewall.Proxy.Http.{Request, get_value}
use gql_firewall.Proxy.Handler.{
  GraphqlBody, Handler, parse_query_with_timeout, with_variables, with_tenant,
}
use gql_firewall.Proxy.Mediation.Evidence.{Approved, ItemApproved, Inspected, single, batch, by_get}

module _ {S : Type 0} (h : Handler S) (I : S → Type 0) where
  item_queries :
      (requests : List GraphqlBody) → All (ItemApproved h I) requests → List (Bytes × QueryInfo)
  item_queries [] items = []
  item_queries (request ∷ requests) items =
      (request.query, with_variables request.variables items.0.info) ∷ item_queries requests items.1

  pub queries : {r : Request} {text : Bytes} → Inspected h I r text → List (Bytes × QueryInfo)
  queries {r} (single request info m b d p a) =
      (request.query, with_tenant r (with_variables request.variables info)) ∷ []
  queries (batch requests m b d n items) = item_queries requests items
  queries {r} (by_get parsed info m p i t a) =
      (get_value (codes "query") r.url_query, with_tenant r info) ∷ []

  -- The evaluator allowed what it was asked, which has the paths and the type that the parser reports
  -- for the text.
  pub record Asked (asked : Bytes × QueryInfo) : Type 0 where
    pub approved : Approved h I asked.1
    pub report : QueryInfo
    pub parsed : parse_graphql h.library asked.0 ≡ ok report
    pub paths : asked.1.field_paths ≡ report.field_paths
    pub kind : asked.1.operation_type ≡ report.operation_type

  with_variables-paths :
      (variables : Bytes) (info : QueryInfo)
      → ((with_variables variables info).field_paths ≡ info.field_paths)
        × ((with_variables variables info).operation_type ≡ info.operation_type)
  unfolding with_variables
  with_variables-paths variables info = ground arith

  with_tenant-paths :
      (r : Request) (info : QueryInfo)
      → ((with_tenant r info).field_paths ≡ info.field_paths)
        × ((with_tenant r info).operation_type ≡ info.operation_type)
  unfolding with_tenant
  with_tenant-paths r info = ground arith

  parse_query_with_timeout-ok :
      (text : Bytes) (info : QueryInfo)
      → parse_query_with_timeout h text ≡ some info
      → parse_graphql h.library text ≡ ok info
  unfolding parse_query_with_timeout
  parse_query_with_timeout-ok text info e = ground arith

  item_queries-Asked :
      (requests : List GraphqlBody) (items : All (ItemApproved h I) requests)
      → All Asked (item_queries requests items)
  unfolding item_queries
  item_queries-Asked [] items = tt
  item_queries-Asked (request ∷ requests) items =
      let item = items.0 in
      let (paths, kind) = with_variables-paths request.variables item.info in
      (
        record {
          approved = item.approved;
          report = item.info;
          parsed = parse_query_with_timeout-ok request.query item.info item.parsed;
          paths = paths;
          kind = kind;
        },
        item_queries-Asked requests items.1,
      )

  pub queries-Asked :
      {r : Request} {text : Bytes} (i : Inspected h I r text) → All Asked (queries i)
  unfolding queries
  queries-Asked {r} (single request info m b d p a) =
      let (paths, kind) = with_variables-paths request.variables info in
      let (paths', kind') = with_tenant-paths r (with_variables request.variables info) in
      (
        record {
          approved = a;
          report = info;
          parsed = parse_query_with_timeout-ok request.query info p;
          paths = paths' ∙ paths;
          kind = kind' ∙ kind;
        },
        tt,
      )
  queries-Asked (batch requests m b d n items) = item_queries-Asked requests items
  queries-Asked {r} (by_get parsed info m p i t a) =
      let (paths, kind) = with_variables-paths (get_value (codes "variables") r.url_query) parsed in
      let (paths', kind') = with_tenant-paths r info in
      (
        record {
          approved = a;
          report = parsed;
          parsed = parse_query_with_timeout-ok _ parsed p;
          paths = paths' ∙ ap (λ (q : QueryInfo). q.field_paths) i ∙ paths;
          kind = kind' ∙ ap (λ (q : QueryInfo). q.operation_type) i ∙ kind;
        },
        tt,
      )
