-- ===== src/Database/Schema.antt =====
-- The statements of internal/server/database/migrations and what they do to a database: tables with
-- their columns and rows, indices, and triggers. A statement that SQLite refuses gives `none`.
pub mod Migrations
pub mod Versions
pub mod Upgrade
use torrents.Prelude.{
  ℕ, String, Bool, true, false, not, ◌||◌, ◌&&◌, ◌==◌, Option, none, some, List, [], ◌∷◌, ◌++◌, map,
  keep, if◌then◌else◌,
}
use torrents.Go.Time.{Stamp}

-- A value; a time is stored as its text.
pub data Value : Type 0 where
  text : String → Value
  integer : ℕ → Value
  time : Stamp → Value

-- A row, as the values of its columns by name.
abbrev pub Cells : Type 0
Cells = List (String × Value)

pub record Table : Type 0 where
  pub name : String
  pub columns : List String
  pub primary_key : List String
  pub rows : List Cells

-- An index or a trigger, and the table that it is on.
pub record Attached : Type 0 where
  pub name : String
  pub on : String
  pub columns : List String

pub record Schema : Type 0 where
  pub tables : List Table
  pub indices : List Attached
  pub triggers : List Attached

-- The flags are `IF NOT EXISTS` and `IF EXISTS`. A trigger deletes the rows of a second table whose
-- column has the value of the deleted row's.
pub data Statement : Type 0 where
  create_table : Bool → String → List String → List String → Statement
  create_index : Bool → String → String → List String → Statement
  create_delete_trigger : String → String → List String → Statement
  add_column : String → String → Value → Statement
  drop_column : String → String → Statement
  drop_table drop_index drop_trigger : Bool → String → Statement

abbrev pub has_table : String → List Table → Bool
has_table n [] = false
has_table n (t ∷ ts) = t.name == n || has_table n ts

abbrev pub has_attached : String → List Attached → Bool
has_attached n [] = false
has_attached n (a ∷ xs) = a.name == n || has_attached n xs

abbrev pub among : String → List String → Bool
among n [] = false
among n (c ∷ cs) = c == n || among n cs

-- Whether an index or a trigger on the table names the column.
abbrev pub names : String → String → List Attached → Bool
names table column [] = false
names table column (a ∷ xs) = (a.on == table && among column a.columns) || names table column xs

abbrev pub with_column : String → Value → Table → Table
with_column column value t = record t {
  columns = t.columns ++ column ∷ [];
  rows = map (λ cells. cells ++ (column, value) ∷ []) t.rows;
}

abbrev pub without_column : String → Table → Table
without_column column t = record t {
  columns = keep (λ c. not (c == column)) t.columns;
  rows = map (keep (λ (c : String × Value). not (c.0 == column))) t.rows;
}

-- A change of the table of a name, refused where there is none or where the test fails.
abbrev pub alter : String → (Table → Bool) → (Table → Table) → List Table → Option (List Table)
alter n p f [] = none
alter n p f (t ∷ ts) =
    let rest = alter n p f ts in
    if t.name == n
    then (if p t then some (f t ∷ ts) else none)
    else elim rest [ none ↦ none | some ts' ↦ some (t ∷ ts') ]

abbrev pub with_tables : Schema → Option (List Table) → Option Schema
with_tables s none = none
with_tables s (some ts) = some (record s { tables = ts })

-- Where the flag is set, a statement on what exists, or does not, has no effect; else it is refused.
abbrev pub skip : Bool → Schema → Option Schema
skip flag s = if flag then some s else none

unfoldable pub execute : Statement → Schema → Option Schema
execute (create_table flag n columns key) s =
    if has_table n s.tables
    then skip flag s
    else some (record s {
      tables =
          s.tables ++ (record { name = n; columns = columns; primary_key = key; rows = [] }) ∷ [];
    })
execute (create_index flag n table columns) s =
    if has_attached n s.indices
    then skip flag s
    else if has_table table s.tables
    then some (record s {
      indices = s.indices ++ (record { name = n; on = table; columns = columns }) ∷ [];
    })
    else none
execute (create_delete_trigger n table columns) s =
    if has_attached n s.triggers || not (has_table table s.tables)
    then none
    else some (record s {
      triggers = s.triggers ++ (record { name = n; on = table; columns = columns }) ∷ [];
    })
execute (add_column table column value) s =
    with_tables s
      (alter table (λ t. not (among column t.columns)) (with_column column value) s.tables)
execute (drop_column table column) s =
    if names table column s.indices || names table column s.triggers
    then none
    else with_tables s (
        alter table (λ t. among column t.columns && not (among column t.primary_key))
          (without_column column) s.tables)
execute (drop_table flag n) s =
    if has_table n s.tables
    then some (record {
      tables = keep (λ (t : Table). not (t.name == n)) s.tables;
      indices = keep (λ (a : Attached). not (a.on == n)) s.indices;
      triggers = keep (λ (a : Attached). not (a.on == n)) s.triggers;
    })
    else skip flag s
execute (drop_index flag n) s =
    if has_attached n s.indices
    then some (record s { indices = keep (λ (a : Attached). not (a.name == n)) s.indices })
    else skip flag s
execute (drop_trigger flag n) s =
    if has_attached n s.triggers
    then some (record s { triggers = keep (λ (a : Attached). not (a.name == n)) s.triggers })
    else skip flag s

unfoldable pub execute_all : List Statement → Schema → Option Schema
execute_all [] s = some s
execute_all (q ∷ qs) s = elim (execute q s) [ none ↦ none | some s' ↦ execute_all qs s' ]
