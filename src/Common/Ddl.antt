-- ===== src/Common/Ddl.antt =====
-- Names, data types and the parts of the definitions of tables (crates/common-sql/src/ast/identifier.rs,
-- datatype.rs and ddl.rs). `E` is the type of expressions. Spans are left out: the code that makes
-- these sets each to the placeholder `Span::new(0, 0)`, and no code reads them.
use native.Mathlib.Decide.{ℕ_discrete}
use tsqlremaker.Base.{ℕ, Bool, List, Option, Text}

pub data DataType : Type 0 where
  tiny_int small_int int big_int real double_precision text ntext date blob boolean uuid json :
      DataType
  decimal numeric : (precision scale : Option ℕ) → DataType
  char var_char nchar nvar_char binary var_binary : (length : Option ℕ) → DataType
  time date_time timestamp : (precision : Option ℕ) → DataType

-- The derived equality.
unfoldable pub DataType-discrete : Discrete DataType
DataType-discrete = hlevel ℕ_discrete

pub record Identifier : Type 0 where
  pub value : Text
  pub quoted : Bool

pub record QualifiedName : Type 0 where
  pub schema : Option Text
  pub name : Text

pub data ColumnConstraint (E : Type 0) : Type 0 where
  primary_key unique auto_increment : ColumnConstraint E
  check : E → ColumnConstraint E
  references : (table : QualifiedName) (columns : List Text) → ColumnConstraint E

pub data TableConstraint (E : Type 0) : Type 0 where
  primary_key unique : (name : Option Text) (columns : List Identifier) → TableConstraint E
  foreign_key :
      (name : Option Text) (columns : List Identifier) (ref_table : QualifiedName)
      (ref_columns : List Identifier)
      → TableConstraint E
  check : (name : Option Text) (expr : E) → TableConstraint E

pub data SortDirection : Type 0 where
  asc desc : SortDirection

pub record IndexColumn : Type 0 where
  pub name : Identifier
  pub direction : Option SortDirection

pub record ColumnDef (E : Type 0) : Type 0 where
  pub name : Identifier
  pub data_type : DataType
  pub nullable : Bool
  pub default : Option E
  pub constraints : List (ColumnConstraint E)

pub record CreateIndexStatement : Type 0 where
  pub unique : Bool
  pub if_not_exists : Bool
  pub name : Identifier
  pub table : QualifiedName
  pub columns : List IndexColumn

module _ {E : Type 0} (E_discrete : Discrete E) where
  unfoldable pub ColumnDef-discrete : Discrete (ColumnDef E)
  ColumnDef-discrete = hlevel (ℕ_discrete, E_discrete)

  unfoldable pub TableConstraint-discrete : Discrete (TableConstraint E)
  TableConstraint-discrete = hlevel (ℕ_discrete, E_discrete)

unfoldable pub IndexColumns-discrete : Discrete (List IndexColumn)
IndexColumns-discrete = hlevel ℕ_discrete
