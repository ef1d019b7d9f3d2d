-- ===== src/Parser/Schema.antt =====
-- LoadSchemaFromBytes, SchemaInfo.Validate and resolveNamedType (parser.go).
pub mod Typing
use gql_firewall.Base.{
  ℕ, Bytes, Bool, true, false, List, [], ◌∷◌, ◌++◌, Option, none, some, Map, lookup, length,
  is_empty, bytes_equal, if◌then◌else◌, codes, ◌>>=◌,
}
use gql_firewall.Parser.Info.{QueryInfo}
use gql_firewall.Parser.Paths.{split_path}

-- ast.Type of gqlparser; `absent` is a nil pointer.
pub data TypeRef : Type 0 where
  absent : TypeRef
  type_ref : (named_type : Bytes) (elem_type : TypeRef) → TypeRef

pub record FieldDefinition : Type 0 where
  pub name : Bytes
  pub field_type : TypeRef

pub record Definition : Type 0 where
  pub name : Bytes
  pub fields : List FieldDefinition

-- ast.Schema; `none` is a nil pointer.
pub record Schema : Type 0 where
  pub query : Option Definition
  pub mutation : Option Definition
  pub subscription : Option Definition
  pub types : Map Definition

pub record SchemaInfo : Type 0 where
  pub schema : Schema
  pub type_count : ℕ

-- What is called and not in the repository: parser.ParseSchema, validator.ValidateSchemaDocument,
-- FieldList.ForName, and the verb %q of fmt.
pub record SchemaLibrary : Type 1 where
  pub SchemaDocument : Type 0
  pub parse_schema : Bytes → Bytes → Option SchemaDocument
  pub validate_schema : SchemaDocument → Option Schema
  pub field_for_name : List FieldDefinition → Bytes → Option FieldDefinition
  pub quote : Bytes → Bytes

unfoldable pub resolve_named_type : TypeRef → Bytes
resolve_named_type absent = []
resolve_named_type (type_ref named elem) = if is_empty named then resolve_named_type elem else named

-- `switch info.OperationType`
unfoldable pub root_type : Schema → Bytes → Option Definition
root_type schema kind =
    if bytes_equal kind (codes "mutation")
    then schema.mutation
    else if bytes_equal kind (codes "subscription")
    then schema.subscription
    else schema.query

module _ (lib : SchemaLibrary) where
  unfoldable pub load_schema_from_bytes : Bytes → Bytes → Option SchemaInfo
  load_schema_from_bytes text name = lib.parse_schema name text >>= λ doc.
      lib.validate_schema doc >>= λ schema.
      some (record { schema = schema; type_count = length schema.types })

  unfoldable pub load_schema_from_string : Bytes → Option SchemaInfo
  unfolding load_schema_from_bytes
  load_schema_from_string text = load_schema_from_bytes text (codes "inline")

  unfoldable pub missing_field : Bytes → Definition → Bytes
  missing_field segment ty =
      codes "field "
      ++ (lib.quote segment ++ (codes " does not exist on type " ++ lib.quote ty.name))

  unfoldable pub unresolved_type : Bytes → Bytes
  unresolved_type segment = codes "cannot resolve return type for field " ++ lib.quote segment

  unfoldable pub missing_type : Bytes → Bytes
  missing_type name = codes "type " ++ (lib.quote name ++ codes " not found in schema")

  -- The inner loop, from the type `ty`: the reason of a failure, or `none`.
  unfoldable pub check_segments : Schema → Definition → List Bytes → Option Bytes
  unfolding resolve_named_type missing_field unresolved_type missing_type
  check_segments schema ty [] = none
  check_segments schema ty (segment ∷ []) = elim (lib.field_for_name ty.fields segment) [
    | none ↦ some (missing_field segment ty)
    | some f ↦ none
  ]
  check_segments schema ty (segment ∷ next ∷ rest) = elim (lib.field_for_name ty.fields segment) [
    | none ↦ some (missing_field segment ty)
    | some f ↦
        if is_empty (resolve_named_type f.field_type)
        then some (unresolved_type segment)
        else elim (lookup (resolve_named_type f.field_type) schema.types) [
          | none ↦ some (missing_type (resolve_named_type f.field_type))
          | some ty' ↦ check_segments schema ty' (next ∷ rest)
        ]
  ]

  -- The body of the outer loop. A path without segments is skipped before the type is looked at, and
  -- so is any path where the schema has no root type.
  unfoldable pub check_path : Schema → Bytes → Bytes → Option Bytes
  unfolding check_segments root_type
  check_path schema kind path = elim (root_type schema kind) [
    | none ↦ none
    | some ty ↦ check_segments schema ty (split_path path)
  ]

  unfoldable pub check_paths : Schema → Bytes → List Bytes → Bool × Bytes
  unfolding check_path
  check_paths schema kind [] = (true, [])
  check_paths schema kind (path ∷ paths) = elim (check_path schema kind path) [
    | none ↦ check_paths schema kind paths
    | some reason ↦ (false, reason)
  ]

  unfoldable pub validate : SchemaInfo → QueryInfo → Bool × Bytes
  unfolding check_paths
  validate s info = check_paths s.schema info.operation_type info.field_paths
