-- ===== src/Migrations.antt =====
-- The operations of the migrations in backend/alembic/versions, on a schema. Each one fails where SQL
-- refuses it: a table, a column or an index that is there already, or is not there, a reference to a table
-- that is not there, and a table that another one still refers to. The names of indexes are the schema's, as
-- in SQLite and PostgreSQL.
pub mod Initial
pub mod Later
pub mod Frame
pub mod RoundTrip
use mathlib.Core.Option
use sentinelai_splunk.Prelude.{
  ℕ, String, Bool, not, ◌&&◌, ◌||◌, Option, none, some, List, [], ◌∷◌, ◌++◌, ◌==◌, any,
  if◌then◌else◌,
}

pub data ColumnType : Type 0 where
  string : ℕ → ColumnType
  integer boolean json text_type date_time : ColumnType

-- `sa.Column`: its name, its type, whether it is nullable, and its default on the server
pub data Column : Type 0 where
  column : String → ColumnType → Bool → Option String → Column

-- the key of a table, a reference to columns of other tables, each with its table, or columns without two
-- equal rows
pub data Constraint : Type 0 where
  primary_key : List String → Constraint
  foreign_key : List String → List (String × String) → Constraint
  unique : List String → Constraint

pub record Table : Type 0 where
  pub name : String
  pub columns : List Column
  pub constraints : List Constraint
  -- the name and the columns of each index
  pub indexes : List (String × List String)

-- the tables in the order of their creation
abbrev pub Schema : Type 0
Schema = List Table

pub data Op : Type 0 where
  create_table : String → List Column → List Constraint → Op
  drop_table : String → Op
  add_column : String → Column → Op
  drop_column : String → String → Op
  create_index : String → String → List String → Op
  drop_index : String → String → Op

-- the table that an operation is about
unfoldable pub table_of : Op → String
table_of (create_table name columns constraints) = name
table_of (drop_table name) = name
table_of (add_column name c) = name
table_of (drop_column name c) = name
table_of (create_index name index columns) = name
table_of (drop_index name index) = name

unfoldable pub has_table : String → Schema → Bool
has_table name = any (λ t. t.name == name)

-- an index of that name, of any table
unfoldable pub has_index : String → Schema → Bool
has_index index = any (λ t. any (λ i. i.0 == index) t.indexes)

-- every table that the constraints refer to is there
unfoldable pub has_targets : List Constraint → Schema → Bool
unfolding has_table
has_targets [] s = Bool.true
has_targets (foreign_key columns targets ∷ cs) s =
    let rest = has_targets cs s in not (any (λ t. not (has_table t.0 s)) targets) && rest
has_targets (_ ∷ cs) s = has_targets cs s

-- the constraints refer to the table
unfoldable pub refers : String → List Constraint → Bool
refers name [] = Bool.false
refers name (foreign_key columns targets ∷ cs) =
    let rest = refers name cs in any (λ t. t.0 == name) targets || rest
refers name (_ ∷ cs) = refers name cs

-- a table of another name refers to the table
unfoldable pub is_referenced : String → Schema → Bool
unfolding refers
is_referenced name = any (λ t. not (t.name == name) && refers name t.constraints)

abbrev column_name : Column → String
column_name (column name kind nullable default) = name

-- the list without its first element of that name; `none` where there is none
unfoldable pub remove {ℓ} : {A : Type ℓ} → (A → String) → String → List A → Option (List A)
remove name_of name [] = none
remove name_of name (x ∷ xs) =
    let rest = remove name_of name xs in
    if name_of x == name then some xs else Option.map (λ ys. x ∷ ys) rest

-- the list with a new element at its end; `none` where there is one of its name
add {ℓ} : {A : Type ℓ} → (A → String) → A → List A → Option (List A)
add name_of x xs = if any (λ y. name_of y == name_of x) xs then none else some (xs ++ x ∷ [])

-- the schema with a table changed
unfoldable pub alter : String → (Table → Option Table) → Schema → Option Schema
alter name change [] = none
alter name change (t ∷ ts) =
    let rest = alter name change ts in
    if t.name == name
    then Option.map (λ t'. t' ∷ ts) (change t)
    else Option.map (λ ts'. t ∷ ts') rest

-- what an operation changes in its table
unfoldable pub change : Op → Table → Option Table
unfolding add remove
change (add_column name c) t =
    Option.map (λ cs. record t { columns = cs }) (add column_name c t.columns)
change (drop_column name c) t =
    Option.map (λ cs. record t { columns = cs }) (remove column_name c t.columns)
change (create_index name index columns) t =
    if any (λ c. not (any (λ d. column_name d == c) t.columns)) columns
    then none
    else some (record t { indexes = t.indexes ++ (index, columns) ∷ [] })
change (drop_index name index) t =
    Option.map (λ is. record t { indexes = is }) (remove (λ i. i.0) index t.indexes)
change op t = some t

-- an operation on a schema; `none` is the error
unfoldable pub run : Op → Schema → Option Schema
unfolding has_table has_targets has_index is_referenced change
run (create_table name columns constraints) s =
    if has_table name s || not (has_targets constraints s)
    then none
    else some (
        s
        ++ record { name = name; columns = columns; constraints = constraints; indexes = [] } ∷ [])
run (drop_table name) s = if is_referenced name s then none else remove (λ t. t.name) name s
run (create_index name index columns) s =
    if has_index index s then none else alter name (change (create_index name index columns)) s
run op s = alter (table_of op) (change op) s

-- the operations of a revision, one after another
unfoldable pub run_all : List Op → Schema → Option Schema
run_all [] s = some s
run_all (op ∷ ops) s = elim (run op s) [ none ↦ none | some s' ↦ run_all ops s' ]
