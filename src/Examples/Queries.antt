-- ===== src/Examples/Queries.antt =====
-- The statement of a query on a table.
use event_store.Prelude.{pos, ◌≡◌, refl, none, some, List, [], ◌∷◌, ok}
use event_store.Types.Json.{str, int}
use event_store.Persistence.Sql.{
  Value, Sql, text, identifier, placeholder, join, statements_of, params_of,
}
use event_store.Persistence.Queries.{
  Query, expression, constant, column_reference, equals, operator_value, Condition, new_condition,
  with_left, with_right, with_operator, new_query, select_all, from_table, where_all, order_by,
  by_field, limit_to, offset_by, add_targets, add_conditions, add_sortbys, to_sortby,
}
use event_store.Persistence.Queries.Fragments.{
  build, built, query_fragment, qualified, specified, around, joined, compared, clauses, clause_of,
  bound_fragment, table_fragment,
}
use event_store.Persistence.Queries.Bound.{marks}
use event_store.Persistence.Queries.Params.{build-params}

abbrev name_is : Condition
name_is = with_right (expression (constant (str "a"))) (
    with_operator equals (with_left (expression (column_reference none none "name")) new_condition))

abbrev events_by_name : Query
events_by_name = offset_by (some 20) (
    limit_to (some 10) (
      order_by (by_field "id" ∷ [])
        (where_all (name_is ∷ []) (from_table "events" (select_all new_query)))))

abbrev events_sql : Sql
events_sql =
    text "SELECT "
    ∷ text "*"
    ∷ text " "
    ∷ text "FROM "
    ∷ identifier "events"
    ∷ text " "
    ∷ text "WHERE "
    ∷ identifier "name"
    ∷ text " "
    ∷ text "="
    ∷ text " "
    ∷ placeholder (str "a")
    ∷ text " "
    ∷ text "ORDER BY "
    ∷ identifier "id"
    ∷ text " "
    ∷ text "LIMIT "
    ∷ placeholder (int (pos 10))
    ∷ text " "
    ∷ text "OFFSET "
    ∷ placeholder (int (pos 20))
    ∷ []

abbrev events_params : List Value
events_params = str "a" ∷ int (pos 10) ∷ int (pos 20) ∷ []

build_run : build events_by_name ≡ ok (events_sql, events_params)
unfolding build built query_fragment qualified specified around joined compared clauses clause_of
    bound_fragment table_fragment join statements_of params_of operator_value new_condition
    with_left with_right with_operator new_query select_all from_table where_all order_by limit_to
    offset_by add_targets add_conditions add_sortbys to_sortby
build_run = refl

build-params_example : marks events_sql ≡ events_params
build-params_example = build-params events_by_name events_sql events_params build_run
