-- ===== src/Parser/Ast.antt =====
-- The syntax tree of expressions and of the SELECT statements inside them
-- (crates/tsql-parser/src/ast/expression.rs and select.rs). A `Vec` or an `Option` of a type of the
-- tree is a type of its own here, and a struct that one constructor holds is written into it.
pub mod Definition
pub mod Statement
use tsqlremaker.Base.{Bool, List, Option, Text}
use tsqlremaker.Token.Position.{Span}

pub record Identifier : Type 0 where
  pub name : Text
  pub span : Span

pub record ColumnReference : Type 0 where
  pub table : Option Identifier
  pub column : Identifier
  pub span : Span

pub data Literal : Type 0 where
  string number float hex : (value : Text) (span : Span) → Literal
  null : (span : Span) → Literal
  boolean : (value : Bool) (span : Span) → Literal

pub data UnaryOperator : Type 0 where
  plus minus tilde not : UnaryOperator

pub data BinaryOperator : Type 0 where
  plus minus multiply divide modulo eq ne ne_alt lt le gt ge not_lt not_gt and or : BinaryOperator
  in_kw between concat : BinaryOperator

pub data IsValue : Type 0 where
  null true_value false_value unknown : IsValue

pub data JoinType : Type 0 where
  inner left left_outer right right_outer full full_outer cross : JoinType

mutual
  pub data Expression : Type 0 where
    literal : Literal → Expression
    identifier : Identifier → Expression
    column_reference : ColumnReference → Expression
    unary_op : (op : UnaryOperator) (expr : Expression) (span : Span) → Expression
    binary_op :
        (left : Expression) (op : BinaryOperator) (right : Expression) (span : Span) → Expression
    function_call :
        (name : Identifier) (args : FunctionArgs) (distinct : Bool) (span : Span) → Expression
    case_expression :
        (branches : Branches) (else_result : MaybeExpression) (span : Span) → Expression
    subquery : SelectStatement → Expression
    exists : SelectStatement → Expression
    in_list : (expr : Expression) (list : InList) (negated : Bool) (span : Span) → Expression
    between : (expr low high : Expression) (negated : Bool) (span : Span) → Expression
    like :
        (expr pattern_expr : Expression) (escape : MaybeExpression) (negated : Bool) (span : Span)
        → Expression
    is : (expr : Expression) (negated : Bool) (value : IsValue) (span : Span) → Expression

  -- `Option<Expression>`
  pub data MaybeExpression : Type 0 where
    no_expression : MaybeExpression
    an_expression : Expression → MaybeExpression

  -- `Vec<Expression>`
  pub data Expressions : Type 0 where
    no_expressions : Expressions
    expression_then : Expression → Expressions → Expressions

  -- `Vec<(Expression, Expression)>`, of a CASE
  pub data Branches : Type 0 where
    no_branches : Branches
    branch_then : (condition result : Expression) → Branches → Branches

  pub data FunctionArg : Type 0 where
    expression_arg : Expression → FunctionArg
    qualified_wildcard_arg : Identifier → FunctionArg
    wildcard_arg : FunctionArg

  pub data FunctionArgs : Type 0 where
    no_args : FunctionArgs
    arg_then : FunctionArg → FunctionArgs → FunctionArgs

  pub data InList : Type 0 where
    values : Expressions → InList
    select_list : SelectStatement → InList

  pub data SelectStatement : Type 0 where
    select_statement :
        (span : Span) (distinct : Bool) (top : MaybeExpression) (columns : SelectItems)
        (from : MaybeFrom) (where_clause : MaybeExpression) (group_by : Expressions)
        (having : MaybeExpression) (order_by : OrderByItems) (limit : MaybeLimit)
        → SelectStatement

  pub data SelectItem : Type 0 where
    expression_item : Expression → Option Identifier → SelectItem
    wildcard_item : SelectItem
    qualified_wildcard_item : Identifier → SelectItem

  pub data SelectItems : Type 0 where
    no_items : SelectItems
    item_then : SelectItem → SelectItems → SelectItems

  -- `Option<FromClause>`
  pub data MaybeFrom : Type 0 where
    no_from : MaybeFrom
    from_clause : (tables : TableReferences) (joins : Joins) → MaybeFrom

  pub data TableReference : Type 0 where
    table_ref : (name : Identifier) (alias : Option Identifier) (span : Span) → TableReference
    subquery_ref :
        (query : SelectStatement) (alias : Option Identifier) (span : Span) → TableReference
    joined_ref : (joins : Joins) (span : Span) → TableReference

  pub data TableReferences : Type 0 where
    no_tables : TableReferences
    table_then : TableReference → TableReferences → TableReferences

  pub data Joins : Type 0 where
    no_joins : Joins
    join_then :
        (join_type : JoinType) (table : TableReference) (on_condition : MaybeExpression)
        (using_columns : List Identifier) (span : Span)
        → Joins
        → Joins

  -- `Vec<OrderByItem>`
  pub data OrderByItems : Type 0 where
    no_order : OrderByItems
    order_then : (expr : Expression) (asc : Bool) → OrderByItems → OrderByItems

  -- `Option<LimitClause>`
  pub data MaybeLimit : Type 0 where
    no_limit : MaybeLimit
    limit_clause : (limit : Expression) (offset : MaybeExpression) → MaybeLimit

-- `Literal::span`, and `AstNode::span` of a statement and of an expression.
abbrev pub literal_span : Literal → Span
literal_span (Literal.string v s) = s
literal_span (Literal.number v s) = s
literal_span (Literal.float v s) = s
literal_span (Literal.hex v s) = s
literal_span (Literal.null s) = s
literal_span (Literal.boolean v s) = s

abbrev pub select_span : SelectStatement → Span
select_span (select_statement s d t c f w g h o l) = s

abbrev pub expression_span : Expression → Span
expression_span (literal l) = literal_span l
expression_span (identifier i) = i.span
expression_span (column_reference c) = c.span
expression_span (unary_op o e s) = s
expression_span (binary_op l o r s) = s
expression_span (function_call n a d s) = s
expression_span (case_expression b e s) = s
expression_span (subquery q) = select_span q
expression_span (exists q) = select_span q
expression_span (in_list e l n s) = s
expression_span (between e l h n s) = s
expression_span (like e p x n s) = s
expression_span (is e n v s) = s
