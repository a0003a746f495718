-- ===== src/Parser/Ast/Definition.antt =====
-- The syntax tree of the changes of tables and of their definitions
-- (crates/tsql-parser/src/ast/data_modification.rs and ddl.rs).
use tsqlremaker.Base.{ℕ, Bool, List, Option}
use tsqlremaker.Token.Position.{Span}
use tsqlremaker.Parser.Ast.{
  Identifier, Expression, Expressions, MaybeExpression, SelectStatement, TableReference, MaybeFrom,
}

pub data InsertSource : Type 0 where
  values : List Expressions → InsertSource
  select : SelectStatement → InsertSource
  default_values : InsertSource

pub record InsertStatement : Type 0 where
  pub span : Span
  pub table : Identifier
  pub columns : List Identifier
  pub source : InsertSource

pub record Assignment : Type 0 where
  pub column : Identifier
  pub value : Expression

pub record UpdateStatement : Type 0 where
  pub span : Span
  pub table : TableReference
  pub assignments : List Assignment
  pub from_clause : MaybeFrom
  pub where_clause : MaybeExpression

pub record DeleteStatement : Type 0 where
  pub span : Span
  pub table : Identifier
  pub from_clause : MaybeFrom
  pub where_clause : MaybeExpression

pub data DataType : Type 0 where
  int small_int tiny_int big_int float real double date time datetime small_date_time timestamp :
      DataType
  bit text unique_identifier money small_money : DataType
  varchar var_binary : Option ℕ → DataType
  char binary : ℕ → DataType
  decimal numeric : (precision scale : Option ℕ) → DataType

pub data ColumnConstraint : Type 0 where
  primary_key unique : ColumnConstraint
  foreign : (ref_table ref_column : Identifier) → ColumnConstraint
  check : Expression → ColumnConstraint

pub record ColumnDefinition : Type 0 where
  pub name : Identifier
  pub data_type : DataType
  pub nullability : Option Bool
  pub default_value : MaybeExpression
  pub identity : Bool
  pub constraints : List ColumnConstraint

pub data TableConstraint : Type 0 where
  primary_key unique : (name : Option Identifier) (columns : List Identifier) → TableConstraint
  foreign :
      (name : Option Identifier) (columns : List Identifier) (ref_table : Identifier)
      (ref_columns : List Identifier)
      → TableConstraint
  check : (name : Option Identifier) (expr : Expression) → TableConstraint

pub record TableDefinition : Type 0 where
  pub span : Span
  pub name : Identifier
  pub columns : List ColumnDefinition
  pub constraints : List TableConstraint
  pub temporary : Bool

pub record IndexDefinition : Type 0 where
  pub span : Span
  pub name : Identifier
  pub table : Identifier
  pub columns : List Identifier
  pub unique : Bool

pub record ViewDefinition : Type 0 where
  pub span : Span
  pub name : Identifier
  pub query : SelectStatement

pub record ParameterDefinition : Type 0 where
  pub name : Identifier
  pub data_type : DataType
  pub default_value : MaybeExpression
  pub is_output : Bool

pub record AddColumnDefinition : Type 0 where
  pub name : Identifier
  pub data_type : DataType
  pub nullability : Option Bool
  pub identity : Bool

pub record AlterColumnDefinition : Type 0 where
  pub name : Identifier
  pub data_type : DataType
  pub nullability : Option Bool

pub data AlterTableOperation : Type 0 where
  add_column : AddColumnDefinition → AlterTableOperation
  drop_column : Identifier → AlterTableOperation
  alter_column : AlterColumnDefinition → AlterTableOperation

pub record AlterTableStatement : Type 0 where
  pub span : Span
  pub table : Identifier
  pub operation : AlterTableOperation

pub data TriggerEvent : Type 0 where
  insert update delete : TriggerEvent
