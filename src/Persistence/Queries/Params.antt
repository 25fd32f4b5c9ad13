-- ===== src/Persistence/Queries/Params.antt =====
-- The parameters of a statement are those that its placeholders are meant for, in their order.
use event_store.Prelude.{
  ℕ, ◌≡◌, refl, subst, String, Option, none, some, List, [], ◌∷◌, All, Result, ok, err,
  ok-injective, >>=-eq-ok, ◌>>=◌,
}
use event_store.Persistence.Sql.{Value, Sql, text, identifier, Fragment}
use event_store.Persistence.Queries.{
  Expression, function_application, cast, column_reference, star, constant, raw, condition,
  Expressions, no_expressions, and_expression, Operand, no_operand, expression, several, subquery,
  Condition, compare, Conditions, no_conditions, and_condition, Target, result_target, star_target,
  Targets, no_targets, and_target, SortBy, sort_by, SortBys, no_sortbys, and_sortby, NamedQueries,
  no_named_queries, and_named_query, Unions, no_unions, union_of, Queries, no_queries, and_query,
  Query, query,
}
use event_store.Persistence.Queries.Fragments.{
  around, specified, clauses, bound_fragment, comma, direction_suffix, label_suffix, union_part,
  expression_fragment, expression_fragments, operand_fragment, condition_fragment,
  condition_fragments, target_fragment, target_fragments, sortby_fragment, sortby_fragments,
  cte_fragments, subquery_fragments, query_fragments, union_fragment, query_fragment, built, build,
}
use event_store.Persistence.Queries.Bound.{
  marks, IsBound, OnOk, OnOk-bind, OnOk-any, joined-IsBound, around-IsBound, in_parentheses-IsBound,
  qualified-IsBound, compared-IsBound, clause_of-IsBound, bound_fragment-IsBound, tables-IsBound,
  direction-marks, label-marks, union-marks,
}

-- One fragment, and those of the rest.
cons-IsBound :
    (P : Fragment → Fragment) (f : Result Fragment) (fs : Result (List Fragment))
    → ((g : Fragment) → IsBound g → IsBound (P g))
    → OnOk IsBound f
    → OnOk (All IsBound) fs
    → OnOk (All IsBound) (f >>= λ g. fs >>= λ gs. ok (P g ∷ gs))
cons-IsBound P (ok g) (ok gs) keeps hg hgs = (keeps g hg, hgs)
cons-IsBound P (ok g) (err e) keeps hg hgs = tt
cons-IsBound P (err e) fs keeps hg hgs = tt

-- The clauses of a query.
clauses-IsBound :
    (cte : List Fragment) (union : Fragment) (select : List Fragment) (tables : List String)
    (from where_ order_by : List Fragment) (limit offset : Option ℕ)
    → All IsBound cte
    → IsBound union
    → All IsBound select
    → All IsBound from
    → All IsBound where_
    → All IsBound order_by
    → All IsBound (clauses cte union select tables from where_ order_by limit offset)
unfolding clauses
clauses-IsBound cte union select tables from where_ order_by limit offset h1 h2 h3 h4 h5 h6 =
    let bounds : All IsBound
        (bound_fragment "LIMIT " limit ∷ bound_fragment "OFFSET " offset ∷ []) =
      (bound_fragment-IsBound "LIMIT " limit, (bound_fragment-IsBound "OFFSET " offset, tt)) in
    let from_on =
      clause_of-IsBound (text "FROM " ∷ []) comma _ refl refl (tables-IsBound tables from h4) in
    let where_on = clause_of-IsBound (text "WHERE " ∷ []) (text " AND " ∷ []) where_ refl refl h5 in
    let order_on = clause_of-IsBound (text "ORDER BY " ∷ []) comma order_by refl refl h6 in
    let select_on = clause_of-IsBound (text "SELECT " ∷ []) comma select refl refl h3 in
    let with_on = clause_of-IsBound (text "WITH " ∷ []) comma cte refl refl h1 in
    (with_on, (h2, (select_on, (from_on, (where_on, (order_on, bounds))))))

mutual
  unfolding expression_fragment

  expression-IsBound : (e : Expression) → OnOk IsBound (expression_fragment e)
  expression-IsBound (function_application name arguments) =
      OnOk-bind _ (All IsBound) (expression_fragments arguments) _ (expressions-IsBound arguments)
        (λ fragments h.
          joined-IsBound (identifier name ∷ text "(" ∷ []) comma (text ")" ∷ []) fragments refl refl
            refl h)
  expression-IsBound (cast e typename) =
      OnOk-bind _ IsBound (expression_fragment e) _ (expression-IsBound e) (λ f h.
        around-IsBound (text "CAST(" ∷ []) (text " AS " ∷ identifier typename ∷ text ")" ∷ []) f
          refl refl h)
  expression-IsBound (column_reference schema table field) =
      qualified-IsBound schema table (identifier field ∷ []) refl
  expression-IsBound (star schema table) = qualified-IsBound schema table (text "*" ∷ []) refl
  expression-IsBound (constant value) = refl
  expression-IsBound (raw sql) = refl
  expression-IsBound (condition c) = condition-IsBound c

  expressions-IsBound : (es : Expressions) → OnOk (All IsBound) (expression_fragments es)
  expressions-IsBound no_expressions = tt
  expressions-IsBound (and_expression e es) =
      cons-IsBound (λ f. f) (expression_fragment e) (expression_fragments es) (λ f h. h)
        (expression-IsBound e) (expressions-IsBound es)

  operand-IsBound : (o : Operand) → OnOk IsBound (operand_fragment o)
  operand-IsBound no_operand = tt
  operand-IsBound (expression e) = expression-IsBound e
  operand-IsBound (several es) =
      OnOk-bind _ (All IsBound) (expression_fragments es) _ (expressions-IsBound es) (λ fragments h.
        joined-IsBound (text "(" ∷ []) comma (text ")" ∷ []) fragments refl refl refl h)
  operand-IsBound (subquery q) =
      OnOk-bind _ IsBound (query_fragment q) _ (query-IsBound q) in_parentheses-IsBound

  condition-IsBound : (c : Condition) → OnOk IsBound (condition_fragment c)
  condition-IsBound (compare left right operator) =
      OnOk-bind _ (λ _. Unit) (specified left right operator) _ (OnOk-any _)
        (λ checked _. OnOk-bind _ IsBound (operand_fragment left) _ (operand-IsBound left) (λ f hf.
          OnOk-bind _ IsBound (operand_fragment right) _ (operand-IsBound right)
            (λ g hg. compared-IsBound f g operator hf hg)))

  conditions-IsBound : (cs : Conditions) → OnOk (All IsBound) (condition_fragments cs)
  conditions-IsBound no_conditions = tt
  conditions-IsBound (and_condition c cs) =
      cons-IsBound (λ f. f) (condition_fragment c) (condition_fragments cs) (λ f h. h)
        (condition-IsBound c) (conditions-IsBound cs)

  target-IsBound : (t : Target) → OnOk IsBound (target_fragment t)
  target-IsBound (result_target e label) =
      OnOk-bind _ IsBound (expression_fragment e) _ (expression-IsBound e)
        (λ f h. around-IsBound [] (label_suffix label) f refl (label-marks label) h)
  target-IsBound (star_target schema table) = qualified-IsBound schema table (text "*" ∷ []) refl

  targets-IsBound : (ts : Targets) → OnOk (All IsBound) (target_fragments ts)
  targets-IsBound no_targets = tt
  targets-IsBound (and_target t ts) =
      cons-IsBound (λ f. f) (target_fragment t) (target_fragments ts) (λ f h. h) (target-IsBound t)
        (targets-IsBound ts)

  sortby-IsBound : (s : SortBy) → OnOk IsBound (sortby_fragment s)
  sortby-IsBound (sort_by e direction) =
      OnOk-bind _ IsBound (expression_fragment e) _ (expression-IsBound e)
        (λ f h. around-IsBound [] (direction_suffix direction) f refl (direction-marks direction) h)

  sortbys-IsBound : (ss : SortBys) → OnOk (All IsBound) (sortby_fragments ss)
  sortbys-IsBound no_sortbys = tt
  sortbys-IsBound (and_sortby s ss) =
      cons-IsBound (λ f. f) (sortby_fragment s) (sortby_fragments ss) (λ f h. h) (sortby-IsBound s)
        (sortbys-IsBound ss)

  ctes-IsBound : (qs : NamedQueries) → OnOk (All IsBound) (cte_fragments qs)
  ctes-IsBound no_named_queries = tt
  ctes-IsBound (and_named_query q name qs) =
      cons-IsBound (around (identifier name ∷ text " AS (" ∷ []) (text ")" ∷ [])) (query_fragment q)
        (cte_fragments qs)
        (λ f h. around-IsBound (identifier name ∷ text " AS (" ∷ []) (text ")" ∷ []) f refl refl h)
        (query-IsBound q) (ctes-IsBound qs)

  subqueries-IsBound : (qs : NamedQueries) → OnOk (All IsBound) (subquery_fragments qs)
  subqueries-IsBound no_named_queries = tt
  subqueries-IsBound (and_named_query q alias qs) =
      cons-IsBound (around (text "(" ∷ []) (text ") AS " ∷ identifier alias ∷ []))
        (query_fragment q) (subquery_fragments qs)
        (λ f h. around-IsBound (text "(" ∷ []) (text ") AS " ∷ identifier alias ∷ []) f refl refl h)
        (query-IsBound q) (subqueries-IsBound qs)

  queries-IsBound : (qs : Queries) → OnOk (All IsBound) (query_fragments qs)
  queries-IsBound no_queries = tt
  queries-IsBound (and_query q qs) =
      cons-IsBound (around (text "(" ∷ []) (text ")" ∷ [])) (query_fragment q) (query_fragments qs)
        (λ f h. around-IsBound (text "(" ∷ []) (text ")" ∷ []) f refl refl h) (query-IsBound q)
        (queries-IsBound qs)

  unions-IsBound : (u : Unions) → OnOk IsBound (union_fragment u)
  unions-IsBound no_unions = refl
  unions-IsBound (union_of qs mode) =
      OnOk-bind _ (All IsBound) (query_fragments qs) _ (queries-IsBound qs) (λ fragments h.
        joined-IsBound [] (union_part mode) [] fragments refl (union-marks mode) refl h)

  query-IsBound : (q : Query) → OnOk IsBound (query_fragment q)
  query-IsBound (query ctes unions targets tables subqueries conditions sortbys limit offset) =
      OnOk-bind _ (All IsBound) (cte_fragments ctes) _ (ctes-IsBound ctes) (λ cte h1.
        OnOk-bind _ IsBound (union_fragment unions) _ (unions-IsBound unions) (λ union h2.
          OnOk-bind _ (All IsBound) (target_fragments targets) _ (targets-IsBound targets)
            (λ select h3.
              OnOk-bind _ (All IsBound) (subquery_fragments subqueries) _
                (subqueries-IsBound subqueries)
                (λ from h4.
                  OnOk-bind _ (All IsBound) (condition_fragments conditions) _
                    (conditions-IsBound conditions)
                    (λ where_ h5.
                      OnOk-bind _ (All IsBound) (sortby_fragments sortbys) _
                        (sortbys-IsBound sortbys)
                        (λ order_by h6.
                          joined-IsBound [] (text " " ∷ []) []
                            (clauses cte union select tables from where_ order_by limit offset) refl
                            refl refl
                            (clauses-IsBound cte union select tables from where_ order_by limit
                              offset h1 h2 h3 h4 h5 h6)))))))

built-bound :
    (f : Fragment) (sql : Sql) (params : List Value)
    → IsBound f
    → built f ≡ ok (sql, params)
    → marks sql ≡ params
unfolding built
built-bound (none, ps) sql params h same = cc
built-bound (some s, ps) sql params h same =
    let pair : (s, ps) ≡ (sql, params) = ok-injective same in
    subst (λ (x : Sql × List Value). marks x.0 ≡ x.1) pair h

-- What `build` returns of a query, if it raises nothing: the parameters are those that the
-- placeholders of the statement are meant for, one for each, from left to right.
pub build-params :
    (q : Query) (sql : Sql) (params : List Value) → build q ≡ ok (sql, params) → marks sql ≡ params
unfolding build
build-params q sql params h =
    let (f, found, made) = >>=-eq-ok (query_fragment q) built h in
    built-bound f sql params (subst (OnOk IsBound) found (query-IsBound q)) made
