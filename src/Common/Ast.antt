-- ===== src/Common/Ast.antt =====
-- Expressions and queries of Common SQL (crates/common-sql/src/ast/expression.rs, literal.rs,
-- clause.rs, join.rs and statement.rs). A `Vec` or an `Option` of a type of the tree is a type of its
-- own here, and a struct that one constructor holds is written into it. Spans are left out: the
-- translation sets each to the placeholder `Span::new(0, 0)`, and no emitter reads them.
use tsqlremaker.Base.{Bool, List, Option, Text, ℤ}
use tsqlremaker.Common.Ddl.{Identifier, QualifiedName, DataType, SortDirection}

pub data Literal : Type 0 where
  string : Text → Literal
  integer : ℤ → Literal
  float : Text → Literal
  null : Literal
  boolean : Bool → Literal

pub data BinaryOperator : Type 0 where
  add sub mul div modulo concat : BinaryOperator

pub data UnaryOperator : Type 0 where
  plus minus not : UnaryOperator

pub data LogicalOperator : Type 0 where
  and or : LogicalOperator

pub data ComparisonOperator : Type 0 where
  eq ne lt le gt ge like not_like ilike not_ilike : ComparisonOperator

pub data NullOrdering : Type 0 where
  nulls_first nulls_last : NullOrdering

pub data JoinType : Type 0 where
  inner left right full cross : JoinType

pub record TableAlias : Type 0 where
  pub name : Text
  pub columns : List Text

mutual
  pub data Expression : Type 0 where
    literal : Literal → Expression
    identifier : Identifier → Expression
    qualified_identifier : (table column : Identifier) → Expression
    binary_op : (left : Expression) (op : BinaryOperator) (right : Expression) → Expression
    unary_op : (op : UnaryOperator) (expr : Expression) → Expression
    logical_op : (left : Expression) (op : LogicalOperator) (right : Expression) → Expression
    comparison : (left : Expression) (op : ComparisonOperator) (right : Expression) → Expression
    function : (name : Identifier) (args : Expressions) (distinct : Bool) → Expression
    case_expression :
        (operand : MaybeExpression) (conditions : Conditions) (else_result : MaybeExpression)
        → Expression
    subquery : SelectStatement → Expression
    exists : (subquery : SelectStatement) (negated : Bool) → Expression
    in_list : (expr : Expression) (list : InList) (negated : Bool) → Expression
    between : (expr low high : Expression) (negated : Bool) → Expression
    cast : (expr : Expression) (data_type : DataType) → Expression
    is_null : (expr : Expression) (negated : Bool) → Expression

  -- `Option<Expression>`
  pub data MaybeExpression : Type 0 where
    no_expression : MaybeExpression
    an_expression : Expression → MaybeExpression

  -- `Vec<Expression>`
  pub data Expressions : Type 0 where
    no_expressions : Expressions
    expression_then : Expression → Expressions → Expressions

  -- `Vec<(Expression, Expression)>`
  pub data Conditions : Type 0 where
    no_conditions : Conditions
    condition_then : (condition result : Expression) → Conditions → Conditions

  pub data InList : Type 0 where
    values : Expressions → InList
    select_list : SelectStatement → InList

  pub data SelectStatement : Type 0 where
    select_statement :
        (with_clause : MaybeWith) (projection : SelectItems) (from : MaybeFrom)
        (where_clause : MaybeExpression) (group_by : MaybeGroupBy) (having : MaybeExpression)
        (order_by : MaybeOrderBy) (limit : MaybeLimit)
        → SelectStatement

  -- `Option<WithClause>`
  pub data MaybeWith : Type 0 where
    no_with : MaybeWith
    with_clause : (recursive : Bool) (ctes : Ctes) → MaybeWith

  -- `Vec<Cte>`
  pub data Ctes : Type 0 where
    no_ctes : Ctes
    cte_then :
        (name : Text) (columns : List Text) (query : SelectStatement) (materialized : Option Bool)
        → Ctes
        → Ctes

  pub data SelectItem : Type 0 where
    expression_item : (expr : Expression) (alias : Option Identifier) → SelectItem
    qualified_wildcard : (table : Identifier) → SelectItem
    wildcard : SelectItem

  pub data SelectItems : Type 0 where
    no_items : SelectItems
    item_then : SelectItem → SelectItems → SelectItems

  -- `Option<TableFactor>`
  pub data MaybeFrom : Type 0 where
    no_from : MaybeFrom
    a_from : TableFactor → MaybeFrom

  pub data TableFactor : Type 0 where
    table : (name : QualifiedName) (alias : Option TableAlias) → TableFactor
    derived : (subquery : SelectStatement) (alias : Option TableAlias) → TableFactor
    join :
        (join_type : JoinType) (table : TableFactor) (condition : JoinCondition) (lateral : Bool)
        → TableFactor

  pub data JoinCondition : Type 0 where
    on_condition : Expression → JoinCondition
    using_columns : List Identifier → JoinCondition
    natural : JoinCondition

  -- `Option<GroupByClause>`
  pub data MaybeGroupBy : Type 0 where
    no_group_by : MaybeGroupBy
    group_by : GroupByItems → MaybeGroupBy

  pub data GroupByItem : Type 0 where
    expression_group : Expression → GroupByItem
    rollup cube : Expressions → GroupByItem
    grouping_sets : Sets → GroupByItem

  -- `Vec<Vec<Expression>>`
  pub data Sets : Type 0 where
    no_sets : Sets
    set_then : Expressions → Sets → Sets

  pub data GroupByItems : Type 0 where
    no_groups : GroupByItems
    group_then : GroupByItem → GroupByItems → GroupByItems

  -- `Option<OrderByClause>`
  pub data MaybeOrderBy : Type 0 where
    no_order_by : MaybeOrderBy
    order_by : OrderByItems → MaybeOrderBy

  pub data OrderByItems : Type 0 where
    no_order : OrderByItems
    order_then :
        (expr : Expression) (direction : Option SortDirection) (nulls : Option NullOrdering)
        → OrderByItems
        → OrderByItems

  -- `Option<LimitClause>`
  pub data MaybeLimit : Type 0 where
    no_limit : MaybeLimit
    limit_clause : (limit : Expression) (offset : MaybeExpression) → MaybeLimit
