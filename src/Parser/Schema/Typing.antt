-- ===== src/Parser/Schema/Typing.antt =====
-- What SchemaInfo.Validate (parser.go) decides: whether every field path is typed by the schema.
use gql_firewall.Base.{
  ap, Bytes, true, false, List, [], ◌∷◌, none, some, ◌≡◌, ◌≢◌, ◌↔◌, inl, inr, refl, lookup,
  is_empty, Option-cases, Bool-cases, All, arith,
}
use gql_firewall.Parser.Info.{QueryInfo}
use gql_firewall.Parser.Paths.{split_path}
use gql_firewall.Parser.Schema.{
  Definition, FieldDefinition, Schema, SchemaInfo, SchemaLibrary, resolve_named_type, root_type,
  check_segments, check_path, check_paths, validate,
}

module _ (lib : SchemaLibrary) (schema : Schema) where
  -- The segments name fields, each of the type that the one before it returns.
  pub data Typed : Definition → List Bytes → Type 0 where
    done : (ty : Definition) → Typed ty []
    last :
        (ty : Definition) (segment : Bytes) (f : FieldDefinition)
        → lib.field_for_name ty.fields segment ≡ some f
        → Typed ty (segment ∷ [])
    step :
        (ty ty' : Definition) (segment next : Bytes) (rest : List Bytes) (f : FieldDefinition)
        → lib.field_for_name ty.fields segment ≡ some f
        → resolve_named_type f.field_type ≢ []
        → lookup (resolve_named_type f.field_type) schema.types ≡ some ty'
        → Typed ty' (next ∷ rest)
        → Typed ty (segment ∷ next ∷ rest)

  ne-nil_of_is_empty : (s : Bytes) → is_empty s ≡ false → s ≢ []
  ne-nil_of_is_empty [] h = cc
  ne-nil_of_is_empty (c ∷ s) h = λ e. ground arith

  is_empty_of_ne-nil : (s : Bytes) → s ≢ [] → is_empty s ≡ false
  is_empty_of_ne-nil [] h = absurd (h refl)
  is_empty_of_ne-nil (c ∷ s) h = refl

  check_segments-Typed :
      (ty : Definition) (segments : List Bytes)
      → check_segments lib schema ty segments ≡ none
      → Typed ty segments
  unfolding check_segments
  check_segments-Typed ty [] h = done ty
  check_segments-Typed ty (segment ∷ []) h =
      elim (Option-cases (lib.field_for_name ty.fields segment)) [
        | inl missing ↦ absurd (ground arith)
        | inr (f, found) ↦ last ty segment f found
      ]
  check_segments-Typed ty (segment ∷ next ∷ rest) h =
      elim (Option-cases (lib.field_for_name ty.fields segment)) [
        | inl missing ↦ absurd (ground arith)
        | inr (f, found) ↦ elim (Bool-cases (is_empty (resolve_named_type f.field_type))) [
          | inl blank ↦ absurd (ground arith)
          | inr named ↦
              elim (Option-cases (lookup (resolve_named_type f.field_type) schema.types)) [
                | inl unknown ↦ absurd (ground arith)
                | inr (ty', known) ↦
                    step ty ty' segment next rest f found (ne-nil_of_is_empty _ named) known
                      (check_segments-Typed ty' (next ∷ rest) (ground arith))
              ]
        ]
      ]

  Typed-check_segments :
      {ty : Definition} {segments : List Bytes}
      → Typed ty segments
      → check_segments lib schema ty segments ≡ none
  unfolding check_segments
  Typed-check_segments (done ty) = refl
  Typed-check_segments (last ty segment f found) = rw (found, check_segments)
  Typed-check_segments (step ty ty' segment next rest f found named known more) =
      ground (
        arith,
        is_empty_of_ne-nil (resolve_named_type f.field_type) named,
        Typed-check_segments more,
      )

  -- A path is accepted if the schema has no root type for the operation, or types it from there.
  pub data Accepted (kind path : Bytes) : Type 0 where
    rootless : root_type schema kind ≡ none → Accepted kind path
    typed :
        (ty : Definition)
        → root_type schema kind ≡ some ty
        → Typed ty (split_path path)
        → Accepted kind path

  check_path-Accepted :
      (kind path : Bytes) → check_path lib schema kind path ≡ none → Accepted kind path
  unfolding check_path
  check_path-Accepted kind path h = elim (Option-cases (root_type schema kind)) [
    | inl no_root ↦ rootless no_root
    | inr (ty, root) ↦
        typed ty root (check_segments-Typed ty (split_path path) (rw (root, check_path) at h))
  ]

  Accepted-check_path :
      {kind path : Bytes} → Accepted kind path → check_path lib schema kind path ≡ none
  unfolding check_path
  Accepted-check_path (rootless no_root) = rw (no_root, check_path)
  Accepted-check_path (typed ty root t) = rw (root, check_path) (Typed-check_segments t)

  check_paths-Accepted :
      (kind : Bytes) (paths : List Bytes)
      → (check_paths lib schema kind paths).0 ≡ true
      → All (Accepted kind) paths
  unfolding check_paths
  check_paths-Accepted kind [] h = tt
  check_paths-Accepted kind (path ∷ paths) h =
      elim (Option-cases (check_path lib schema kind path)) [
        | inl fine ↦ (
          check_path-Accepted kind path fine,
          check_paths-Accepted kind paths (rw (fine, check_paths) at h),
        )
        | inr (reason, bad) ↦ absurd (ground arith)
      ]

  Accepted-check_paths :
      (kind : Bytes) (paths : List Bytes)
      → All (Accepted kind) paths
      → check_paths lib schema kind paths ≡ (true, [])
  unfolding check_paths
  Accepted-check_paths kind [] h = refl
  Accepted-check_paths kind (path ∷ paths) h =
      rw (Accepted-check_path h.0, check_paths) (Accepted-check_paths kind paths h.1)

pub validate-Accepted :
    (lib : SchemaLibrary) (s : SchemaInfo) (info : QueryInfo)
    → (validate lib s info).0 ≡ true
    → All (Accepted lib s.schema info.operation_type) info.field_paths
unfolding validate
validate-Accepted lib s info h =
    check_paths-Accepted lib s.schema info.operation_type info.field_paths h

-- Validation passes exactly when every field path is typed: each segment names a field of the type
-- that the segment before it returns, from the root type of the operation, or there is no such root.
-- It then gives no reason.
pub validate_iff :
    (lib : SchemaLibrary) (s : SchemaInfo) (info : QueryInfo)
    → (validate lib s info ≡ (true, []))
      ↔ All (Accepted lib s.schema info.operation_type) info.field_paths
unfolding validate
validate_iff lib s info = (
  (λ h. validate-Accepted lib s info (ap (λ r. r.0) h)),
  Accepted-check_paths lib s.schema info.operation_type info.field_paths,
)

-- A schema with no mutation type refuses no mutation, and one with no subscription type refuses no
-- subscription, whatever fields they ask for.
validate-rootless :
    (lib : SchemaLibrary) (s : SchemaInfo) (info : QueryInfo)
    → root_type s.schema info.operation_type ≡ none
    → validate lib s info ≡ (true, [])
validate-rootless lib s info h = (validate_iff lib s info).1 (every info.field_paths)
  where
    every : (paths : List Bytes) → All (Accepted lib s.schema info.operation_type) paths
    every [] = tt
    every (path ∷ paths) = (rootless h, every paths)
