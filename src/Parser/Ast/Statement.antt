-- ===== src/Parser/Ast/Statement.antt =====
-- The syntax tree of statements (crates/tsql-parser/src/ast/mod.rs, control_flow.rs, ddl.rs and
-- batch.rs). A struct that one constructor holds is written into it.
use tsqlremaker.Base.{ℕ, List, Option}
use tsqlremaker.Token.Position.{Span}
use tsqlremaker.Parser.Ast.{Identifier, Expression, MaybeExpression, SelectStatement, select_span}
use tsqlremaker.Parser.Ast.Definition.{
  InsertStatement, UpdateStatement, DeleteStatement, DataType, TableDefinition, IndexDefinition,
  ViewDefinition, ParameterDefinition, AlterTableStatement, TriggerEvent,
}

pub record VariableDeclaration : Type 0 where
  pub name : Identifier
  pub data_type : DataType
  pub default_value : MaybeExpression

-- `Assignment` of control_flow.rs
pub record Assignment : Type 0 where
  pub variable : Identifier
  pub value : Expression

pub data TransactionStatement : Type 0 where
  begin commit rollback : (span : Span) (name : Option Identifier) → TransactionStatement
  save : (span : Span) (name : Identifier) → TransactionStatement

pub data ExecArgument : Type 0 where
  positional : Expression → ExecArgument
  named : (name : Identifier) (value : Expression) → ExecArgument

mutual
  pub data Statement : Type 0 where
    select : SelectStatement → Statement
    insert : InsertStatement → Statement
    update : UpdateStatement → Statement
    delete : DeleteStatement → Statement
    create : CreateStatement → Statement
    alter_table : AlterTableStatement → Statement
    declare : (span : Span) (variables : List VariableDeclaration) → Statement
    set : (span : Span) (variable : Identifier) (value : Expression) → Statement
    variable_assignment : (span : Span) (assignments : List Assignment) → Statement
    if_statement :
        (span : Span) (condition : Expression) (then_branch : Statement)
        (else_branch : MaybeStatement)
        → Statement
    while : (span : Span) (condition : Expression) (body : Statement) → Statement
    block : Block → Statement
    break continue : (span : Span) → Statement
    return : (span : Span) (expression : MaybeExpression) → Statement
    try_catch : (span : Span) (try_block catch_block : Block) → Statement
    transaction : TransactionStatement → Statement
    throw : (span : Span) (error_number message state : MaybeExpression) → Statement
    raiserror : (span : Span) (message : Expression) (severity state : MaybeExpression) → Statement
    exec : (span : Span) (procedure : Identifier) (arguments : List ExecArgument) → Statement
    batch_separator : (span : Span) (repeat_count : Option ℕ) → Statement

  -- `Option<Statement>`
  pub data MaybeStatement : Type 0 where
    no_statement : MaybeStatement
    a_statement : Statement → MaybeStatement

  -- `Vec<Statement>`
  pub data Statements : Type 0 where
    no_statements : Statements
    statement_then : Statement → Statements → Statements

  pub data Block : Type 0 where
    begin_end : (span : Span) (statements : Statements) → Block

  pub data CreateStatement : Type 0 where
    table : TableDefinition → CreateStatement
    index : IndexDefinition → CreateStatement
    view : ViewDefinition → CreateStatement
    procedure :
        (span : Span) (name : Identifier) (parameters : List ParameterDefinition)
        (body : Statements)
        → CreateStatement
    trigger :
        (span : Span) (name table : Identifier) (events : List TriggerEvent) (body : Statements)
        → CreateStatement

-- `AstNode::span` of the parts and of a statement.
abbrev pub block_span : Block → Span
block_span (begin_end s b) = s

abbrev pub create_span : CreateStatement → Span
create_span (CreateStatement.table d) = d.span
create_span (CreateStatement.index d) = d.span
create_span (CreateStatement.view d) = d.span
create_span (CreateStatement.procedure s n p b) = s
create_span (CreateStatement.trigger s n t e b) = s

abbrev pub transaction_span : TransactionStatement → Span
transaction_span (TransactionStatement.begin s n) = s
transaction_span (TransactionStatement.commit s n) = s
transaction_span (TransactionStatement.rollback s n) = s
transaction_span (TransactionStatement.save s n) = s

abbrev pub statement_span : Statement → Span
statement_span (Statement.select q) = select_span q
statement_span (Statement.insert i) = i.span
statement_span (Statement.update u) = u.span
statement_span (Statement.delete d) = d.span
statement_span (Statement.create c) = create_span c
statement_span (Statement.alter_table a) = a.span
statement_span (Statement.declare s v) = s
statement_span (Statement.set s v e) = s
statement_span (Statement.variable_assignment s a) = s
statement_span (Statement.if_statement s c t e) = s
statement_span (Statement.while s c b) = s
statement_span (Statement.block b) = block_span b
statement_span (Statement.break s) = s
statement_span (Statement.continue s) = s
statement_span (Statement.return s e) = s
statement_span (Statement.try_catch s t c) = s
statement_span (Statement.transaction t) = transaction_span t
statement_span (Statement.throw s n m t) = s
statement_span (Statement.raiserror s m v t) = s
statement_span (Statement.exec s p a) = s
statement_span (Statement.batch_separator s n) = s
