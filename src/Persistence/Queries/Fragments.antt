-- ===== src/Persistence/Queries/Fragments.antt =====
-- src/logicblocks/event/persistence/postgres/query.py: what expressions, conditions and queries come
-- to, a statement with its parameters, or the exception that this raises.
use event_store.Prelude.{
  ℕ, pos, String, Option, none, some, List, [], ◌∷◌, ◌++◌, map, Result, ok, err, value_error, ◌>>=◌,
}
use event_store.Types.Json.{int}
use event_store.Persistence.Sql.{
  Value, Sql, text, identifier, placeholder, raw as raw_text, join, Fragment, no_fragment,
  statements_of, params_of,
}
use event_store.Persistence.Queries.{
  Expression, function_application, cast, column_reference, star, constant, raw, condition,
  Expressions, no_expressions, and_expression, Operand, no_operand, expression, several, subquery,
  Condition, compare, Conditions, no_conditions, and_condition, Target, result_target, star_target,
  Targets, no_targets, and_target, SortBy, sort_by, SortBys, no_sortbys, and_sortby, NamedQueries,
  no_named_queries, and_named_query, Unions, no_unions, union_of, Queries, no_queries, and_query,
  Query, query, Operator, operator_value, SetQuantifier, all_rows, distinct_rows, SortDirection,
  asc, desc,
}

abbrev pub comma : Sql
comma = text ", " ∷ []

-- A column or a star, by its schema and table.
unfoldable pub qualified : Option String → Option String → Sql → Result Fragment
qualified (some schema) none name =
    err (value_error "Cannot resolve column reference with schema but no table.")
qualified (some schema) (some table) name =
    ok ((some (identifier schema ∷ text "." ∷ identifier table ∷ text "." ∷ name), []))
qualified none (some table) name = ok ((some (identifier table ∷ text "." ∷ name), []))
qualified none none name = ok ((some name, []))

-- What stands around a statement, where there is one.
unfoldable pub around : Sql → Sql → Fragment → Fragment
around opening closing (none, params) = (none, params)
around opening closing (some s, params) = (some (opening ++ s ++ closing), params)

-- `_operand_fragment` of a query, which drops the parameters of one with no statement.
unfoldable pub in_parentheses : Fragment → Fragment
in_parentheses (none, params) = no_fragment
in_parentheses (some s, params) = (some (text "(" ∷ s ++ text ")" ∷ []), params)

-- The fragments' statements, joined, with the fragments' parameters.
unfoldable pub joined : Sql → Sql → Sql → List Fragment → Fragment
unfolding join statements_of params_of
joined opening separator closing fragments =
    (some (opening ++ join separator (statements_of fragments) ++ closing), params_of fragments)

-- The check that `Condition.to_fragment` makes first.
unfoldable pub specified : Operand → Operand → Option Operator → Result (Unit {0})
specified no_operand _ _ = err (value_error "Condition not fully specified.")
specified _ no_operand _ = err (value_error "Condition not fully specified.")
specified _ _ none = err (value_error "Condition not fully specified.")
specified _ _ _ = ok tt

-- `Condition.to_fragment`, once its operands are converted
unfoldable pub compared : Fragment → Option Operator → Fragment → Result Fragment
unfolding operator_value
compared (some left, left_params) (some operator) (some right, right_params) = ok (
    (
      some (left ++ (text " " ∷ text (operator_value operator) ∷ text " " ∷ []) ++ right),
      left_params ++ right_params,
    ))
compared _ _ _ = err (value_error "Condition not fully specified.")

abbrev pub direction_suffix : Option SortDirection → Sql
direction_suffix none = []
direction_suffix (some asc) = text " " ∷ text "ASC" ∷ []
direction_suffix (some desc) = text " " ∷ text "DESC" ∷ []

abbrev pub label_suffix : Option String → Sql
label_suffix none = []
label_suffix (some label) = text " AS " ∷ identifier label ∷ []

abbrev pub union_part : SetQuantifier → Sql
union_part distinct_rows = text " UNION DISTINCT " ∷ []
union_part all_rows = text " UNION ALL " ∷ []

-- A clause that is left out if its list is empty.
unfoldable pub clause_of : Sql → Sql → List Fragment → Fragment
unfolding joined
clause_of opening separator [] = no_fragment
clause_of opening separator (f ∷ fragments) = joined opening separator [] (f ∷ fragments)

-- `_limit_fragment` and `_offset_fragment`
unfoldable pub bound_fragment : String → Option ℕ → Fragment
bound_fragment keyword none = no_fragment
bound_fragment keyword (some n) =
    (some (text keyword ∷ placeholder (int (pos n)) ∷ []), int (pos n) ∷ [])

unfoldable pub table_fragment : String → Fragment
table_fragment table = (some (identifier table ∷ []), [])

-- The clauses of a query, in the order in which they stand.
unfoldable pub clauses :
    List Fragment
    → Fragment
    → List Fragment
    → List String
    → List Fragment
    → List Fragment
    → List Fragment
    → Option ℕ
    → Option ℕ
    → List Fragment
unfolding clause_of bound_fragment table_fragment
clauses cte union select tables from where_ order_by limit offset =
    clause_of (text "WITH " ∷ []) comma cte
    ∷ union
    ∷ clause_of (text "SELECT " ∷ []) comma select
    ∷ clause_of (text "FROM " ∷ []) comma (map table_fragment tables ++ from)
    ∷ clause_of (text "WHERE " ∷ []) (text " AND " ∷ []) where_
    ∷ clause_of (text "ORDER BY " ∷ []) comma order_by
    ∷ bound_fragment "LIMIT " limit
    ∷ bound_fragment "OFFSET " offset
    ∷ []

unfoldable mutual
  unfolding qualified specified around in_parentheses joined compared clauses

  pub expression_fragment : Expression → Result Fragment
  expression_fragment (function_application name arguments) = do
    fragments ← expression_fragments arguments
    ok (joined (identifier name ∷ text "(" ∷ []) comma (text ")" ∷ []) fragments)
  expression_fragment (cast e typename) = do
    fragment ← expression_fragment e
    ok (around (text "CAST(" ∷ []) (text " AS " ∷ identifier typename ∷ text ")" ∷ []) fragment)
  expression_fragment (column_reference schema table field) =
      qualified schema table (identifier field ∷ [])
  expression_fragment (star schema table) = qualified schema table (text "*" ∷ [])
  expression_fragment (constant value) = ok ((some (placeholder value ∷ []), value ∷ []))
  expression_fragment (raw sql) = ok ((some (raw_text sql ∷ []), []))
  expression_fragment (condition c) = condition_fragment c

  pub expression_fragments : Expressions → Result (List Fragment)
  expression_fragments no_expressions = ok []
  expression_fragments (and_expression e expressions) = do
    fragment ← expression_fragment e
    fragments ← expression_fragments expressions
    ok (fragment ∷ fragments)

  pub operand_fragment : Operand → Result Fragment
  operand_fragment no_operand = err (value_error "Condition not fully specified.")
  operand_fragment (expression e) = expression_fragment e
  operand_fragment (several expressions) = do
    fragments ← expression_fragments expressions
    ok (joined (text "(" ∷ []) comma (text ")" ∷ []) fragments)
  operand_fragment (subquery q) = do fragment ← query_fragment q; ok (in_parentheses fragment)

  pub condition_fragment : Condition → Result Fragment
  condition_fragment (compare left right operator) = do
    checked ← specified left right operator
    left_fragment ← operand_fragment left
    right_fragment ← operand_fragment right
    compared left_fragment operator right_fragment

  pub condition_fragments : Conditions → Result (List Fragment)
  condition_fragments no_conditions = ok []
  condition_fragments (and_condition c conditions) = do
    fragment ← condition_fragment c
    fragments ← condition_fragments conditions
    ok (fragment ∷ fragments)

  pub target_fragment : Target → Result Fragment
  target_fragment (result_target e label) = do
    fragment ← expression_fragment e
    ok (around [] (label_suffix label) fragment)
  target_fragment (star_target schema table) = qualified schema table (text "*" ∷ [])

  pub target_fragments : Targets → Result (List Fragment)
  target_fragments no_targets = ok []
  target_fragments (and_target t targets) = do
    fragment ← target_fragment t
    fragments ← target_fragments targets
    ok (fragment ∷ fragments)

  pub sortby_fragment : SortBy → Result Fragment
  sortby_fragment (sort_by e direction) = do
    fragment ← expression_fragment e
    ok (around [] (direction_suffix direction) fragment)

  pub sortby_fragments : SortBys → Result (List Fragment)
  sortby_fragments no_sortbys = ok []
  sortby_fragments (and_sortby s sortbys) = do
    fragment ← sortby_fragment s
    fragments ← sortby_fragments sortbys
    ok (fragment ∷ fragments)

  -- Common table expressions, each as `name AS (…)`.
  pub cte_fragments : NamedQueries → Result (List Fragment)
  cte_fragments no_named_queries = ok []
  cte_fragments (and_named_query q name queries) = do
    fragment ← query_fragment q
    fragments ← cte_fragments queries
    ok (around (identifier name ∷ text " AS (" ∷ []) (text ")" ∷ []) fragment ∷ fragments)

  -- Subqueries, each as `(…) AS alias`.
  pub subquery_fragments : NamedQueries → Result (List Fragment)
  subquery_fragments no_named_queries = ok []
  subquery_fragments (and_named_query q alias queries) = do
    fragment ← query_fragment q
    fragments ← subquery_fragments queries
    ok (around (text "(" ∷ []) (text ") AS " ∷ identifier alias ∷ []) fragment ∷ fragments)

  pub query_fragments : Queries → Result (List Fragment)
  query_fragments no_queries = ok []
  query_fragments (and_query q queries) = do
    fragment ← query_fragment q
    fragments ← query_fragments queries
    ok (around (text "(" ∷ []) (text ")" ∷ []) fragment ∷ fragments)

  pub union_fragment : Unions → Result Fragment
  union_fragment no_unions = ok no_fragment
  union_fragment (union_of queries mode) = do
    fragments ← query_fragments queries
    ok (joined [] (union_part mode) [] fragments)

  pub query_fragment : Query → Result Fragment
  query_fragment (query ctes unions targets tables subqueries conditions sortbys limit offset) = do
    cte ← cte_fragments ctes
    union ← union_fragment unions
    select ← target_fragments targets
    from ← subquery_fragments subqueries
    where_ ← condition_fragments conditions
    order_by ← sortby_fragments sortbys
    ok (
        joined [] (text " " ∷ []) []
          (clauses cte union select tables from where_ order_by limit offset))

-- `Query.build`
unfoldable pub built : Fragment → Result (Sql × List Value)
built (none, params) = err (value_error "Empty query.")
built (some s, params) = ok (s, params)

unfoldable pub build : Query → Result (Sql × List Value)
unfolding query_fragment built
build q = query_fragment q >>= built
