-- ===== src/Server/Serve/Typed.antt =====
-- What a started server (main.go) forwards, against the schema (parser.go) that it was given.
use gql_firewall.Base.{
  Bytes, true, [], none, some, Map, In, In-All, All, All-map, ◌≡◌, ◌≢◌, sym, subst, refl, arith,
}
use gql_firewall.Metrics.{Events}
use gql_firewall.Parser.Analysis.{ok, parse_graphql}
use gql_firewall.Parser.Analysis.Fields.{parse_graphql-PathsOf}
use gql_firewall.Parser.Ast.{OperationDefinition, QueryDocument, Library, FindsListed}
use gql_firewall.Parser.Info.{QueryInfo}
use gql_firewall.Parser.Paths.{extend_path}
use gql_firewall.Parser.Schema.{Schema, SchemaInfo, SchemaLibrary}
use gql_firewall.Parser.Schema.Typing.{Accepted, validate-Accepted}
use gql_firewall.Parser.Walk.Selected.{Selects}
use gql_firewall.Proxy.Handler.{Handler}
use gql_firewall.Proxy.Http.{Request, Response, forwarded}
use gql_firewall.Proxy.Mediation.{serve_http-Inspected}
use gql_firewall.Proxy.Mediation.Evidence.{Inspected, Sent}
use gql_firewall.Proxy.Mediation.Queries.{Asked, queries, queries-Asked}
use gql_firewall.Proxy.Text.{is_graphql_path}
use gql_firewall.Server.Evaluate.{Config, schema_refusal}
use gql_firewall.Server.Evaluate.Outcomes.{evaluate_iff}
use gql_firewall.Server.Pipeline.{Backend, composite, lookup_time, store_time}
use gql_firewall.Server.Serve.{Live, Arrival, serve_main}
use gql_firewall.Server.Serve.Allowed.{Approved-allowed}
use gql_firewall.Opa.Store.{DataStore}
use gql_firewall.Server.Serve.Changing.{server_at}
use gql_firewall.Server.Serve.Routes.{serve_main-forwarded}
use gql_firewall.Server.Startup.{Environment, Flags, Server, ready, load_schema, start}
use gql_firewall.Server.Startup.Laws.Wiring.{start-schema}

-- The text parses to a document, the query has the type that is reported for the text, and in the document the schema accepts each field that an operation selects outside
-- fragments, at its own path, and each that it selects at all, at some path that ends in its name.
pub record IsWellTyped (lib : Library) (schemas : SchemaLibrary) (schema : Schema)
    (asked : Bytes × QueryInfo) : Type 0 where
  pub doc : QueryDocument
  pub parsed : lib.parse_query asked.0 ≡ some doc
  pub report : QueryInfo
  pub reported : parse_graphql lib asked.0 ≡ ok report
  pub kind : asked.1.operation_type ≡ report.operation_type
  pub own :
      (op : OperationDefinition) (parent name : Bytes)
      → In op doc.operations
      → Selects lib [] op.selection_set [] parent name
      → Accepted schemas schema asked.1.operation_type (extend_path parent name)
  pub anywhere :
      (op : OperationDefinition) (parent name : Bytes)
      → In op doc.operations
      → Selects lib doc.fragments op.selection_set [] parent name
      → (p : Bytes) × Accepted schemas schema asked.1.operation_type (extend_path p name)

schema_refusal-Accepted :
    (c : Config) (s : SchemaInfo) (info : QueryInfo)
    → c.schema ≡ some s
    → schema_refusal c info ≡ none
    → All (Accepted c.library s.schema info.operation_type) info.field_paths
unfolding schema_refusal
schema_refusal-Accepted c s info present fine = validate-Accepted c.library s info (ground arith)

Asked-IsWellTyped :
    (c : Config) (h : Handler Backend) (I : Backend → Type 0) (s : SchemaInfo)
    (asked : Bytes × QueryInfo)
    → h.evaluate ≡ composite c
    → FindsListed h.library
    → c.schema ≡ some s
    → Asked h I asked
    → IsWellTyped h.library c.library s.schema asked
Asked-IsWellTyped c h I s (text, info) wired finds present q =
    let before = q.approved.before.state in
    let (fine, policy) =
      (evaluate_iff c (lookup_time before) (store_time before) info _).0
        (Approved-allowed c h wired I info q.approved) in
    let accepted = schema_refusal-Accepted c s info present fine in
    let at = λ (path : Bytes) (m : In path q.report.field_paths).
      In-All (Accepted c.library s.schema info.operation_type) info.field_paths accepted
        (subst (In path) (sym q.paths) m) in
    let paths = parse_graphql-PathsOf h.library text q.report finds q.parsed in
    record {
      doc = paths.doc;
      parsed = paths.parsed;
      report = q.report;
      reported = q.parsed;
      kind = q.kind;
      own = λ op parent name listed sel. at _ (paths.own_paths op parent name listed sel);
      anywhere = λ op parent name listed sel.
          let (p, m) = paths.unmissed op parent name listed sel in (p, at _ m);
    }

-- Whatever a server that was started with a schema file forwards on a GraphQL path, with whatever the
-- store has by then, was inspected, and
-- the text of every query in it (the `query` of the body, of each item of a batch, or of the URL) is of a
-- document whose fields the schema of that file accepts, by their aliases where they have any: a field that an operation selects outside fragments at its own path, and a field of a
-- fragment at some path that ends in its name. The paths are typed from the root type of the document's
-- first operation.
pub serve_main-IsWellTyped :
    (metrics_page : Events → Response) (env : Environment) (f : Flags) (s : Server)
    (store : DataStore) (live live' : Live) (a : Arrival) (headers : Map Bytes) (r' : Request)
    → start env f ≡ ready s
    → f.schema ≢ []
    → FindsListed s.proxy.handler.library
    → is_graphql_path a.request.path ≡ true
    → serve_main metrics_page (server_at store s) a live ≡ (forwarded headers r', live')
    → (schema : SchemaInfo) × (load_schema env f.schema ≡ some schema)
      × ((text : Bytes) × (i : Inspected
            (server_at store s).proxy.handler
            (λ b. Unit {0})
            a.request
            text)
          × Sent a.request text headers r'
          × All
              (IsWellTyped s.proxy.handler.library s.config.library schema.schema)
              (queries (server_at store s).proxy.handler (λ b. Unit {0}) i))
serve_main-IsWellTyped metrics_page env f s store live live' a headers r' started named finds path
      e =
    let h = (server_at store s).proxy.handler in
    let (schema, loaded, present) = start-schema env f s started named in
    let (within, served) =
      serve_main-forwarded metrics_page (server_at store s) a live live' headers r' e in
    let (text, seen, sent) =
      serve_http-Inspected h (λ b. Unit {0}) a.request r' headers live.world live'.world
        (λ info w carried i. tt) tt path served in
    (
      schema,
      loaded,
      (
        text,
        seen,
        sent,
        All-map (Asked h (λ b. Unit {0})) (IsWellTyped h.library s.config.library schema.schema)
            (λ asked q.
              Asked-IsWellTyped (server_at store s).config h (λ b. Unit {0}) schema asked refl finds
                present q)
            (queries h (λ b. Unit {0}) seen) (queries-Asked h (λ b. Unit {0}) seen),
      ),
    )
