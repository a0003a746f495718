-- ===== src/Common/Statement.antt =====
-- Statements of Common SQL (crates/common-sql/src/ast/statement.rs and ddl.rs), without their spans.
use tsqlremaker.Base.{Bool, List, Option, Text}
use tsqlremaker.Token.Position.{Span}
use tsqlremaker.Common.Ddl.{
  Identifier, QualifiedName, DataType, TableConstraint, ColumnDef, CreateIndexStatement,
}
use tsqlremaker.Common.Ast.{
  Expression, Expressions, MaybeExpression, SelectStatement, TableFactor, MaybeFrom,
}

pub record Assignment : Type 0 where
  pub column : Identifier
  pub value : Expression

pub data ConflictAction : Type 0 where
  do_nothing : ConflictAction
  do_update : List Assignment → ConflictAction

pub record OnConflict : Type 0 where
  pub action : ConflictAction
  pub conflict_target : Option (List Identifier)

pub data InsertSource : Type 0 where
  values : List Expressions → InsertSource
  select : SelectStatement → InsertSource

pub record InsertStatement : Type 0 where
  pub table : QualifiedName
  pub columns : List Identifier
  pub source : InsertSource
  pub on_conflict : Option OnConflict

pub record UpdateStatement : Type 0 where
  pub table : TableFactor
  pub assignments : List Assignment
  pub from : MaybeFrom
  pub where_clause : MaybeExpression

pub record DeleteStatement : Type 0 where
  pub table : TableFactor
  pub using : Option (List TableFactor)
  pub where_clause : MaybeExpression

pub record TableOptions : Type 0 where
  pub engine : Option Text
  pub charset : Option Text
  pub collation : Option Text
  pub comment : Option Text

pub record CreateTableStatement : Type 0 where
  pub if_not_exists : Bool
  pub temporary : Bool
  pub name : QualifiedName
  pub columns : List (ColumnDef Expression)
  pub constraints : List (TableConstraint Expression)
  pub options : TableOptions

-- The default of a changed column: `none` for one that stays.
pub data AlterTableAction : Type 0 where
  add_column : ColumnDef Expression → AlterTableAction
  drop_column : Identifier → AlterTableAction
  alter_column :
      (column : Identifier) (data_type : Option DataType) (default : Option MaybeExpression)
      (nullable : Option Bool)
      → AlterTableAction
  add_constraint : TableConstraint Expression → AlterTableAction
  drop_constraint : Text → AlterTableAction
  rename_to : QualifiedName → AlterTableAction

pub record AlterTableStatement : Type 0 where
  pub name : QualifiedName
  pub actions : List AlterTableAction

pub record DropTableStatement : Type 0 where
  pub if_exists : Bool
  pub names : List QualifiedName

pub record DropIndexStatement : Type 0 where
  pub if_exists : Bool
  pub name : Identifier
  pub table : Option QualifiedName

pub data Statement : Type 0 where
  select : SelectStatement → Statement
  insert : InsertStatement → Statement
  update : UpdateStatement → Statement
  delete : DeleteStatement → Statement
  create_table : CreateTableStatement → Statement
  alter_table : AlterTableStatement → Statement
  drop_table : DropTableStatement → Statement
  create_index : CreateIndexStatement → Statement
  drop_index : DropIndexStatement → Statement
  dialect_specific : (source : Text) (span : Span) → Statement
