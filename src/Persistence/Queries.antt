-- ===== src/Persistence/Queries.antt =====
-- src/logicblocks/event/persistence/postgres/query.py: expressions, conditions and queries, and the
-- methods that build them. An optional argument that is left out is `none`.
pub mod Fragments
pub mod Bound
pub mod Params
use event_store.Prelude.{ℕ, String, Bool, true, false, Option, none, some, List, [], ◌∷◌, ◌++◌, map}
use event_store.Persistence.Sql.{Value}

pub data ComparisonType : Type 0 where
  as_text : ComparisonType
  as_jsonb : ComparisonType

pub data Operator : Type 0 where
  equals : Operator
  not_equals : Operator
  greater_than : Operator
  greater_than_or_equal : Operator
  less_than : Operator
  less_than_or_equal : Operator
  is_in : Operator
  contains : Operator
  regex_matches : Operator
  not_regex_matches : Operator
  is_null : Operator
  is_not_null : Operator

unfoldable pub operator_value : Operator → String
operator_value equals = "="
operator_value not_equals = "!="
operator_value greater_than = ">"
operator_value greater_than_or_equal = ">="
operator_value less_than = "<"
operator_value less_than_or_equal = "<="
operator_value is_in = "IN"
operator_value contains = "@>"
operator_value regex_matches = "~"
operator_value not_regex_matches = "!~"
operator_value is_null = "IS NULL"
operator_value is_not_null = "IS NOT NULL"

unfoldable pub comparison_type : Operator → ComparisonType
comparison_type regex_matches = as_text
comparison_type not_regex_matches = as_text
comparison_type is_null = as_text
comparison_type is_not_null = as_text
comparison_type _ = as_jsonb

unfoldable pub has_value : Operator → Bool
has_value is_null = false
has_value is_not_null = false
has_value _ = true

pub data SetQuantifier : Type 0 where
  all_rows : SetQuantifier
  distinct_rows : SetQuantifier

pub data SortDirection : Type 0 where
  asc : SortDirection
  desc : SortDirection

unfoldable pub reverse_direction : SortDirection → SortDirection
reverse_direction desc = asc
reverse_direction asc = desc

mutual
  pub data Expression : Type 0 where
    function_application : String → Expressions → Expression
    cast : Expression → String → Expression
    column_reference : Option String → Option String → String → Expression
    star : Option String → Option String → Expression
    constant : Value → Expression
    raw : String → Expression
    condition : Condition → Expression

  pub data Expressions : Type 0 where
    no_expressions : Expressions
    and_expression : Expression → Expressions → Expressions

  -- `ConditionOperand | None`
  pub data Operand : Type 0 where
    no_operand : Operand
    expression : Expression → Operand
    several : Expressions → Operand
    subquery : Query → Operand

  pub data Condition : Type 0 where
    compare : Operand → Operand → Option Operator → Condition

  pub data Conditions : Type 0 where
    no_conditions : Conditions
    and_condition : Condition → Conditions → Conditions

  -- `ResultTarget | Star`
  pub data Target : Type 0 where
    result_target : Expression → Option String → Target
    star_target : Option String → Option String → Target

  pub data Targets : Type 0 where
    no_targets : Targets
    and_target : Target → Targets → Targets

  pub data SortBy : Type 0 where
    sort_by : Expression → Option SortDirection → SortBy

  pub data SortBys : Type 0 where
    no_sortbys : SortBys
    and_sortby : SortBy → SortBys → SortBys

  pub data NamedQueries : Type 0 where
    no_named_queries : NamedQueries
    and_named_query : Query → String → NamedQueries → NamedQueries

  -- The queries of a union and its mode, if there is one.
  pub data Unions : Type 0 where
    no_unions : Unions
    union_of : Queries → SetQuantifier → Unions

  pub data Queries : Type 0 where
    no_queries : Queries
    and_query : Query → Queries → Queries

  -- The fields of `Query` in their order.
  pub data Query : Type 0 where
    query :
        NamedQueries
        → Unions
        → Targets
        → List String
        → NamedQueries
        → Conditions
        → SortBys
        → Option ℕ
        → Option ℕ
        → Query

-- `[*queries, (q, name)]`
unfoldable pub add_named : NamedQueries → Query → String → NamedQueries
add_named no_named_queries q name = and_named_query q name no_named_queries
add_named (and_named_query p alias queries) q name =
    and_named_query p alias (add_named queries q name)

unfoldable pub add_targets : Targets → List Target → Targets
add_targets no_targets [] = no_targets
add_targets no_targets (t ∷ ts) = and_target t (add_targets no_targets ts)
add_targets (and_target t targets) ts = and_target t (add_targets targets ts)

unfoldable pub add_conditions : Conditions → List Condition → Conditions
add_conditions no_conditions [] = no_conditions
add_conditions no_conditions (c ∷ cs) = and_condition c (add_conditions no_conditions cs)
add_conditions (and_condition c conditions) cs = and_condition c (add_conditions conditions cs)

unfoldable pub add_sortbys : SortBys → List SortBy → SortBys
add_sortbys no_sortbys [] = no_sortbys
add_sortbys no_sortbys (s ∷ ss) = and_sortby s (add_sortbys no_sortbys ss)
add_sortbys (and_sortby s sortbys) ss = and_sortby s (add_sortbys sortbys ss)

-- `str | Expression | ResultTarget`
pub data Column : Type 0 where
  named : String → Column
  of_expression : Expression → Column
  of_target : Target → Column

unfoldable pub to_result_target_or_star : Column → Target
to_result_target_or_star (named field) = result_target (column_reference none none field) none
to_result_target_or_star (of_expression e) = result_target e none
to_result_target_or_star (of_target t) = t

-- `str | SortBy`
pub data Sorting : Type 0 where
  by_field : String → Sorting
  by_sortby : SortBy → Sorting

unfoldable pub to_sortby : Sorting → SortBy
to_sortby (by_field field) = sort_by (column_reference none none field) none
to_sortby (by_sortby s) = s

unfoldable pub is_ascending : SortBy → Bool
is_ascending (sort_by e none) = true
is_ascending (sort_by e (some asc)) = true
is_ascending (sort_by e (some desc)) = false

unfoldable pub is_descending : SortBy → Bool
is_descending (sort_by e none) = false
is_descending (sort_by e (some asc)) = false
is_descending (sort_by e (some desc)) = true

unfoldable pub reverse_sortby : SortBy → SortBy
unfolding reverse_direction
reverse_sortby (sort_by e none) = sort_by e none
reverse_sortby (sort_by e (some direction)) = sort_by e (some (reverse_direction direction))

-- `Condition()` and its methods
unfoldable pub new_condition : Condition
new_condition = compare no_operand no_operand none

unfoldable pub with_left : Operand → Condition → Condition
with_left left (compare _ right operator) = compare left right operator

unfoldable pub with_right : Operand → Condition → Condition
with_right right (compare left _ operator) = compare left right operator

unfoldable pub with_operator : Operator → Condition → Condition
with_operator operator (compare left right _) = compare left right (some operator)

-- `Query()` and its methods
unfoldable pub new_query : Query
new_query =
    query no_named_queries no_unions no_targets [] no_named_queries no_conditions no_sortbys none
      none

unfoldable pub union : Query → Query → Queries → SetQuantifier → Query
union query1 query2 more_queries mode =
    query no_named_queries (union_of (and_query query1 (and_query query2 more_queries)) mode)
      no_targets [] no_named_queries no_conditions no_sortbys none none

unfoldable pub with_query : Query → String → Query → Query
unfolding add_named
with_query q name (query ctes unions targets tables subqueries conditions sortbys limit offset) =
    query (add_named ctes q name) unions targets tables subqueries conditions sortbys limit offset

unfoldable pub select : List Column → Query → Query
unfolding add_targets to_result_target_or_star
select columns (query ctes unions targets tables subqueries conditions sortbys limit offset) =
    query ctes unions (add_targets targets (map to_result_target_or_star columns)) tables subqueries
      conditions sortbys limit offset

unfoldable pub select_all : Query → Query
unfolding add_targets
select_all (query ctes unions targets tables subqueries conditions sortbys limit offset) =
    query ctes unions (add_targets targets (star_target none none ∷ [])) tables subqueries
      conditions sortbys limit offset

unfoldable pub from_table : String → Query → Query
from_table table (query ctes unions targets tables subqueries conditions sortbys limit offset) =
    query ctes unions targets (tables ++ table ∷ []) subqueries conditions sortbys limit offset

unfoldable pub from_subquery : Query → String → Query → Query
unfolding add_named
from_subquery q alias
      (query ctes unions targets tables subqueries conditions sortbys limit offset) =
    query ctes unions targets tables (add_named subqueries q alias) conditions sortbys limit offset

unfoldable pub where_all : List Condition → Query → Query
unfolding add_conditions
where_all cs (query ctes unions targets tables subqueries conditions sortbys limit offset) =
    query ctes unions targets tables subqueries (add_conditions conditions cs) sortbys limit offset

unfoldable pub replace_order_by : List Sorting → Query → Query
unfolding add_sortbys to_sortby
replace_order_by ss (query ctes unions targets tables subqueries conditions _ limit offset) =
    query ctes unions targets tables subqueries conditions
      (add_sortbys no_sortbys (map to_sortby ss)) limit offset

unfoldable pub order_by : List Sorting → Query → Query
unfolding add_sortbys to_sortby
order_by ss (query ctes unions targets tables subqueries conditions sortbys limit offset) =
    query ctes unions targets tables subqueries conditions (add_sortbys sortbys (map to_sortby ss))
      limit offset

unfoldable pub limit_to : Option ℕ → Query → Query
limit_to n (query ctes unions targets tables subqueries conditions sortbys _ offset) =
    query ctes unions targets tables subqueries conditions sortbys n offset

unfoldable pub offset_by : Option ℕ → Query → Query
offset_by n (query ctes unions targets tables subqueries conditions sortbys limit _) =
    query ctes unions targets tables subqueries conditions sortbys limit n
