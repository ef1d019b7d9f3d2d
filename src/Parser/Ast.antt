-- ===== src/Parser/Ast.antt =====
-- The shape of the documents of github.com/vektah/gqlparser/v2, as far as the analysis reads it. The
-- library itself is a parameter: `parse_query` is parser.ParseQuery, where an error is `none`, and
-- `for_name` is the method FragmentDefinitionList.ForName. `sum256` is sha256.Sum256.
use gql_firewall.Base.{Bytes, List, Option, some, ◌≡◌, In}

-- ast.Value: its children, and the definition that a variable refers back to. `absent` is a nil
-- pointer. The kind and the raw text are not read.
mutual
  pub data Value : Type 0 where
    value : Children → VariableRef → Value

  pub data OptValue : Type 0 where
    absent : OptValue
    present : Value → OptValue

  pub data Children : Type 0 where
    nil : Children
    cons : OptValue → Children → Children

  pub data VariableRef : Type 0 where
    no_ref : VariableRef
    ref : (default_value : OptValue) → VariableRef

pub record Argument : Type 0 where
  pub name : Bytes
  pub value : OptValue

pub record Directive : Type 0 where
  pub name : Bytes

pub record VariableDefinition : Type 0 where
  pub variable : Bytes
  pub default_value : OptValue

-- ast.Selection. A nil selection set and an empty one are walked alike, and are both `nil`.
mutual
  pub data Selection : Type 0 where
    field :
        (alias name : Bytes) (arguments : List Argument) (directives : List Directive)
        → SelectionSet
        → Selection
    inline_fragment :
        (type_condition : Bytes) (directives : List Directive) → SelectionSet → Selection
    fragment_spread : (name : Bytes) (directives : List Directive) → Selection

  pub data SelectionSet : Type 0 where
    nil : SelectionSet
    cons : Selection → SelectionSet → SelectionSet

-- ast.Operation, a string type with three constants.
pub data Operation : Type 0 where
  query mutation subscription : Operation
  other : Bytes → Operation

pub record OperationDefinition : Type 0 where
  pub operation : Operation
  pub name : Bytes
  pub variable_definitions : List VariableDefinition
  pub directives : List Directive
  pub selection_set : SelectionSet

pub record FragmentDefinition : Type 0 where
  pub name : Bytes
  pub directives : List Directive
  pub selection_set : SelectionSet

pub record QueryDocument : Type 0 where
  pub operations : List OperationDefinition
  pub fragments : List FragmentDefinition

pub record Library : Type 0 where
  pub parse_query : Bytes → Option QueryDocument
  pub for_name : List FragmentDefinition → Bytes → Option FragmentDefinition
  pub sum256 : Bytes → Bytes

-- What `ForName` documents: it returns a fragment of the list that has the name.
abbrev pub FindsListed : Library → Type 0
FindsListed lib =
    (fragments : List FragmentDefinition) (n : Bytes) (f : FragmentDefinition)
    → lib.for_name fragments n ≡ some f
    → In f fragments × (f.name ≡ n)
