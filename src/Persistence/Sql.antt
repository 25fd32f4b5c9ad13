-- ===== src/Persistence/Sql.antt =====
-- The statements that src/logicblocks/event/persistence/postgres builds with `psycopg.sql`: a
-- statement is the list of its parts. A placeholder `%s` is marked with the value that the code
-- means it for, which its text does not have. The text of a `Raw` is the application's.
use event_store.Prelude.{String, Option, none, some, List, [], ◌∷◌, ◌++◌}
use event_store.Types.Json.{JsonValue}

-- A parameter of a statement.
abbrev pub Value : Type 0
Value = JsonValue

pub data Part : Type 0 where
  text : String → Part
  identifier : String → Part
  raw : String → Part
  placeholder : Value → Part

abbrev pub Sql : Type 0
Sql = List Part

-- `separator.join(statements)`
unfoldable pub join : Sql → List Sql → Sql
join separator [] = []
join separator (s ∷ []) = s
join separator (s ∷ t ∷ statements) = s ++ separator ++ join separator (t ∷ statements)

-- `ParameterisedQueryFragment`
abbrev pub Fragment : Type 0
Fragment = Option Sql × List Value

abbrev pub no_fragment : Fragment
no_fragment = (none, [])

-- `[f[0] for f in fragments if f[0] is not None]`
unfoldable pub statements_of : List Fragment → List Sql
statements_of [] = []
statements_of ((none, params) ∷ fragments) = statements_of fragments
statements_of ((some s, params) ∷ fragments) = s ∷ statements_of fragments

-- `[param for f in fragments for param in f[1]]`
unfoldable pub params_of : List Fragment → List Value
params_of [] = []
params_of ((s, params) ∷ fragments) = params ++ params_of fragments
