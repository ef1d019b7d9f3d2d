-- ===== src/Server/Admin/Laws.antt =====
-- Who can change the rules (main.go's admin API), and what is read after a change.
use gql_firewall.Base.{
  on_branch, ◌≡◌, ◌⊎◌, ◌∙◌, inl, inr, refl, ap, Bytes, Bool, false, [], none, drop, is_empty,
  bytes_equal, bytes_equal_refl, has_prefix, codes,
}
use gql_firewall.Opa.Json.{Object}
use gql_firewall.Opa.Store.{get_tenant, set_tenant, delete_tenant}
use gql_firewall.Opa.Store.Laws.{get_tenant_laws}
use gql_firewall.Proxy.Http.{Method, get, post, put, delete, Request, Response}
use gql_firewall.Server.Middleware.{require_admin_auth}
use gql_firewall.Server.Middleware.Laws.{IsAuthorized, require_admin_auth-cases}
use gql_firewall.Server.Admin.{
  AdminState, AdminLibrary, decoded, json_response, max_config_bytes, get_rules, update_rules,
  get_tenants, tenant_by_method, handle_tenant, get_stats, admin_mux,
}

pub IsWrite : Method → Type 0
IsWrite m = (m ≡ post) ⊎ (m ≡ put) ⊎ (m ≡ delete)

-- The operator let the request in: no token is configured, or the request has it.
unfoldable pub MayEnter : Bytes → Request → Type 0
MayEnter token r = (token ≡ []) ⊎ IsAuthorized token r

update_rules-writes :
    (lib : AdminLibrary) (r : Request) (m : Method) (s : AdminState)
    → r.method ≡ m
    → ((update_rules lib r s).1 ≡ s) ⊎ IsWrite m
unfolding update_rules IsWrite
update_rules-writes lib r post s e = inr (inl refl)
update_rules-writes lib r put s e = inr (inr (inl refl))
update_rules-writes lib r m s e = inl (rw (e, update_rules) refl)

tenant_by_method-writes :
    (lib : AdminLibrary) (id : Bytes) (r : Request) (m : Method) (s : AdminState)
    → r.method ≡ m
    → ((tenant_by_method lib id r s).1 ≡ s) ⊎ IsWrite m
unfolding tenant_by_method IsWrite
tenant_by_method-writes lib id r post s e = inr (inl refl)
tenant_by_method-writes lib id r put s e = inr (inr (inl refl))
tenant_by_method-writes lib id r delete s e = inr (inr (inr refl))
tenant_by_method-writes lib id r m s e = inl (rw (e, tenant_by_method) refl)

handle_tenant-writes :
    (lib : AdminLibrary) (r : Request) (s : AdminState)
    → ((handle_tenant lib r s).1 ≡ s) ⊎ IsWrite r.method
unfolding handle_tenant
handle_tenant-writes lib r s =
    on_branch (λ (p : Response × AdminState). (p.1 ≡ s) ⊎ IsWrite r.method)
      (is_empty (drop 15 r.path)) _ _ (inl refl)
      (tenant_by_method-writes lib (drop 15 r.path) r r.method s refl)

guarded :
    (token : Bytes) (next : Request → AdminState → Response × AdminState) (r : Request)
    (s : AdminState)
    → ((next r s).1 ≡ s) ⊎ IsWrite r.method
    → ((require_admin_auth token next r s).1 ≡ s) ⊎ (MayEnter token r × IsWrite r.method)
unfolding MayEnter
guarded token next r s h = elim (require_admin_auth-cases token next r s) [
  | inr (set, wrong, same, status) ↦ inl same
  | inl (enter, e) ↦ elim h [
    | inl same ↦ inl (ap (λ p. p.1) e ∙ same)
    | inr write ↦ inr (enter, write)
  ]
]

-- A request to the admin API changes the rules, the tenants or the metrics only if no token is
-- configured or the request has it, and only by POST, PUT or DELETE.
pub admin_mux-changes :
    (lib : AdminLibrary) (token : Bytes) (r : Request) (s : AdminState)
    → ((admin_mux lib token r s).1 ≡ s) ⊎ (MayEnter token r × IsWrite r.method)
unfolding admin_mux get_rules get_tenants get_stats
admin_mux-changes lib token r s =
    let path : Bytes → Bool = λ p. bytes_equal r.path p in
    let Safe : Response × AdminState → Type 0 =
      λ p. (p.1 ≡ s) ⊎ (MayEnter token r × IsWrite r.method) in
    on_branch Safe (path (codes "/admin/rules")) _ _ (guarded token (get_rules lib) r s (inl refl))
      (on_branch Safe (path (codes "/admin/rules/update")) _ _
        (guarded token (update_rules lib) r s (update_rules-writes lib r r.method s refl))
        (on_branch Safe (path (codes "/admin/tenants")) _ _
          (guarded token (get_tenants lib) r s (inl refl))
          (on_branch Safe (has_prefix r.path (codes "/admin/tenants/")) _ _
            (guarded token (handle_tenant lib) r s (handle_tenant-writes lib r s))
            (on_branch Safe (path (codes "/admin/stats")) _ _
              (guarded token (get_stats lib) r s (inl refl))
              (on_branch Safe (path (codes "/admin/health")) _ _ (inl refl) (inl refl))))))

handle_tenant_reads :
    (lib : AdminLibrary) (read : Request) (id : Bytes) (s : AdminState)
    → drop 15 read.path ≡ id
    → read.method ≡ get
    → is_empty id ≡ false
    → (handle_tenant lib read s).0 ≡ json_response (lib.encode_object (get_tenant id s.store))
unfolding handle_tenant tenant_by_method
handle_tenant_reads lib read id s e reads filled = rw (e, handle_tenant, filled, reads) refl

handle_tenant_stores :
    (lib : AdminLibrary) (r : Request) (s : AdminState) (cfg : Object)
    → is_empty (drop 15 r.path) ≡ false
    → (r.method ≡ put) ⊎ (r.method ≡ post)
    → lib.decode max_config_bytes r.body ≡ decoded cfg
    → (handle_tenant lib r s).1.store ≡ set_tenant (drop 15 r.path) cfg s.store
unfolding handle_tenant tenant_by_method
handle_tenant_stores lib r s cfg filled (inl m) d = rw (filled, handle_tenant, m, d) refl
handle_tenant_stores lib r s cfg filled (inr m) d = rw (filled, handle_tenant, m, d) refl

handle_tenant_deletes :
    (lib : AdminLibrary) (r : Request) (s : AdminState)
    → is_empty (drop 15 r.path) ≡ false
    → r.method ≡ delete
    → (handle_tenant lib r s).1.store ≡ delete_tenant (drop 15 r.path) s.store
unfolding handle_tenant tenant_by_method
handle_tenant_deletes lib r s filled m = rw (filled, handle_tenant, m) refl

-- What GET answers for a tenant after a POST or PUT on the same path whose body decodes is the
-- configuration of that body, and after a DELETE it is null.
pub handle_tenant-get :
    (lib : AdminLibrary) (r read : Request) (s : AdminState) (cfg : Object)
    → read.path ≡ r.path
    → read.method ≡ get
    → is_empty (drop 15 r.path) ≡ false
    → ((r.method ≡ put) ⊎ (r.method ≡ post)
        → lib.decode max_config_bytes r.body ≡ decoded cfg
        → (handle_tenant lib read (handle_tenant lib r s).1).0
          ≡ json_response (lib.encode_object cfg))
      × (r.method ≡ delete
          → (handle_tenant lib read (handle_tenant lib r s).1).0
            ≡ json_response (lib.encode_object none))
handle_tenant-get lib r read s cfg path reads filled =
    let id = drop 15 r.path in
    let (set_get, delete_get) = get_tenant_laws s.store id id cfg in
    let self = bytes_equal_refl id in
    let answer =
      handle_tenant_reads lib read id (handle_tenant lib r s).1 (ap (λ p. drop 15 p) path) reads
        filled in
    let seen : (c : Object)
        → get_tenant id (handle_tenant lib r s).1.store ≡ c
        → (handle_tenant lib read (handle_tenant lib r s).1).0
          ≡ json_response (lib.encode_object c) =
      λ c e. answer ∙ ap (λ o. json_response (lib.encode_object o)) e in
    (
      λ m d. seen cfg (
          ap (λ t. get_tenant id t) (handle_tenant_stores lib r s cfg filled m d)
          ∙ rw self at set_get),
      λ m. seen none (
          ap (λ t. get_tenant id t) (handle_tenant_deletes lib r s filled m)
          ∙ rw self at delete_get),
    )
