-- ===== src/Tests/Samples.antt =====
-- A document with an aliased field, an argument, and a fragment that spreads itself; a library that
-- returns it; and what the analysis reports.
use gql_firewall.Base.{
  Bytes, List, [], ◌∷◌, Option, none, some, codes, if◌then◌else◌, bytes_equal, bytes_equal_iff, In,
  ◌≡◌, inl, inr, arith, Bool-cases,
}
use gql_firewall.Parser.Ast.{
  value, present, Children, no_ref, Argument, Selection, field, fragment_spread, SelectionSet, nil,
  cons, query, OperationDefinition, FragmentDefinition, QueryDocument, Library,
}
use gql_firewall.Parser.Info.{QueryInfo, zero_info}

-- The first fragment with the name.
unfoldable pub find_fragment : List FragmentDefinition → Bytes → Option FragmentDefinition
find_fragment [] n = none
find_fragment (f ∷ fs) n = if bytes_equal f.name n then some f else find_fragment fs n

pub find_fragment-FindsListed :
    (fs : List FragmentDefinition) (n : Bytes) (f : FragmentDefinition)
    → find_fragment fs n ≡ some f
    → In f fs × (f.name ≡ n)
unfolding find_fragment
find_fragment-FindsListed [] n f h = absurd (ground arith)
find_fragment-FindsListed (g ∷ fs) n f h = elim (Bool-cases (bytes_equal g.name n)) [
  | inl same ↦ (inl (ground arith), ground (arith, bytes_equal_iff g.name n))
  | inr other ↦
      let (later, named) = find_fragment-FindsListed fs n f (ground arith) in (inr later, named)
]

abbrev pub plain : Bytes → Bytes → SelectionSet → Selection
plain alias name set = field alias name [] [] set

-- { me: account(id: [1]) { name ...F } }  fragment F on User { posts { ...F } }
abbrev pub sample_fragment : FragmentDefinition
sample_fragment = record {
  name = codes "F";
  directives = [];
  selection_set =
      cons (plain (codes "posts") (codes "posts") (cons (fragment_spread (codes "F") []) nil)) nil;
}

abbrev pub sample_argument : Argument
sample_argument = record {
  name = codes "id";
  value = present (value (Children.cons (present (value Children.nil no_ref)) Children.nil) no_ref);
}

abbrev pub sample_set : SelectionSet
sample_set =
    cons
      (field (codes "me") (codes "account") (sample_argument ∷ []) [] (
        cons (plain (codes "name") (codes "name") nil) (cons (fragment_spread (codes "F") []) nil)))
      nil

abbrev pub sample_operation : OperationDefinition
sample_operation = record {
  operation = query;
  name = codes "Q";
  variable_definitions = [];
  directives = [];
  selection_set = sample_set;
}

abbrev pub sample_document : QueryDocument
sample_document = record { operations = sample_operation ∷ []; fragments = sample_fragment ∷ [] }

abbrev pub sample_library : Library
sample_library = record {
  parse_query = λ q. some sample_document;
  for_name = find_fragment;
  sum256 = λ s. s;
}

abbrev pub sample_query : Bytes
sample_query = codes "{me}"

abbrev pub sample_info : QueryInfo
sample_info = record zero_info {
  operation_type = codes "query";
  operation_name = codes "Q";
  depth = 2;
  field_count = 3;
  field_paths = codes "me" ∷ codes "me.name" ∷ codes "me.posts" ∷ [];
  batch_size = 1;
  argument_depth = 2;
  lists_requested = 1;
  fragment_spread_count = 2;
  query_hash = codes "7b6d657d";
  fragment_count = 1;
}
