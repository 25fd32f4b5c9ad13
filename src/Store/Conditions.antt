-- ===== src/Store/Conditions.antt =====
-- src/logicblocks/event/store/conditions.py: write conditions and how `&` and `|` combine them.
pub mod Meaning
use event_store.Prelude.{ℤ, Option, none, some, List, [], ◌∷◌, ◌++◌}

-- A frozenset is the list of its items in the order in which it iterates.
mutual
  pub data WriteCondition : Type 0 where
    no_condition : WriteCondition
    position_is : Option ℤ → WriteCondition
    empty_stream : WriteCondition
    and_condition : Conditions → WriteCondition
    or_condition : Conditions → WriteCondition

  pub data Conditions : Type 0 where
    nil : Conditions
    cons : WriteCondition → Conditions → Conditions

unfoldable pub of_list : List WriteCondition → Conditions
of_list [] = nil
of_list (c ∷ cs) = cons c (of_list cs)

unfoldable pub to_list : Conditions → List WriteCondition
to_list nil = []
to_list (cons c cs) = c ∷ to_list cs

-- The classes that `_combine` is given.
pub data Combination : Type 0 where
  conjunction : Combination
  disjunction : Combination

-- `self.conditions`, if `self` is of the class
unfoldable pub conditions_of : Combination → WriteCondition → Option (List WriteCondition)
unfolding to_list
conditions_of conjunction (and_condition cs) = some (to_list cs)
conditions_of conjunction _ = none
conditions_of disjunction (or_condition cs) = some (to_list cs)
conditions_of disjunction _ = none

-- `frozenset(items)` drops repetitions and iterates in an order that the hashes decide.
module _ (frozenset : List WriteCondition → List WriteCondition) where
  unfoldable pub construct : Combination → List WriteCondition → WriteCondition
  unfolding of_list
  construct conjunction cs = and_condition (of_list (frozenset cs))
  construct disjunction cs = or_condition (of_list (frozenset cs))

  -- `_combine`
  unfoldable pub combine : Combination → WriteCondition → WriteCondition → WriteCondition
  unfolding construct conditions_of
  combine kind self other = elim (conditions_of kind self) [
    | some own ↦ elim (conditions_of kind other) [
      | some others ↦ construct kind (own ++ others)
      | none ↦ construct kind (own ++ other ∷ [])
    ]
    | none ↦ elim (conditions_of kind other) [
      | some others ↦ construct kind (self ∷ others)
      | none ↦ construct kind (self ∷ other ∷ [])
    ]
  ]

  -- `&`
  unfoldable pub and : WriteCondition → WriteCondition → WriteCondition
  unfolding combine
  and self other = combine conjunction self other

  -- `|`
  unfoldable pub or : WriteCondition → WriteCondition → WriteCondition
  unfolding combine
  or self other = combine disjunction self other
