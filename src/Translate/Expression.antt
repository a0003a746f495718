-- ===== src/Translate/Expression.antt =====
-- `convert_expr` and `convert_select` (crates/tsql-parser/src/ast/to_common_sql.rs).
use mathlib.Core.Option
use tsqlremaker.Base.{Bool, false, if◌then◌else◌, List, [], ◌∷◌, Option, none, some, Text, codes}
use tsqlremaker.Parser.Ast as Tsql
use tsqlremaker.Common.Ddl.{SortDirection}
use tsqlremaker.Common.Ast.{
  ComparisonOperator, Expression, MaybeExpression, Expressions, Conditions, InList, SelectStatement,
  SelectItem, SelectItems, MaybeFrom, TableFactor, TableAlias, MaybeGroupBy, GroupByItems,
  MaybeOrderBy, OrderByItems, MaybeLimit, no_with, expression_group,
}
use tsqlremaker.Translate.Fallible.{◌>>=◌}
use tsqlremaker.Translate.Operators.{
  new, convert_literal, convert_column_reference, convert_unary_op, convert_binary_op,
}

-- The arm of `IS`.
unfoldable pub convert_is : Tsql.IsValue → Bool → Option Expression → Option Expression
convert_is Tsql.IsValue.null negated converted = do
  expr ← converted
  some (Expression.is_null expr negated)
convert_is Tsql.IsValue.unknown negated converted = do
  expr ← converted
  some (Expression.is_null expr negated)
convert_is Tsql.IsValue.true_value negated converted = none
convert_is Tsql.IsValue.false_value negated converted = none

-- `filter_map`, at one expression.
unfoldable pub keep : Option Expression → Expressions → Expressions
keep none es = es
keep (some e) es = Expressions.expression_then e es

-- `and_then(convert_expr)`
unfoldable pub maybe : Option Expression → MaybeExpression
maybe none = MaybeExpression.no_expression
maybe (some e) = MaybeExpression.an_expression e

-- The arguments `*` and `t.*` of a function.
abbrev pub star : Expression
star = Expression.identifier (new (codes "*"))

-- `TableAlias::new(a.name.clone(), vec![])`
abbrev pub alias_of : Option Tsql.Identifier → Option TableAlias
alias_of = Option.map λ (a : Tsql.Identifier). record { name = a.name; columns = [] }

-- `factors.next()`
unfoldable pub first : Option (List TableFactor) → MaybeFrom
first none = MaybeFrom.no_from
first (some []) = MaybeFrom.no_from
first (some (f ∷ fs)) = MaybeFrom.a_from f

unfoldable pub keep_group : Option Expression → GroupByItems → GroupByItems
keep_group none gs = gs
keep_group (some e) gs = GroupByItems.group_then (expression_group e) gs

unfoldable pub group_clause : GroupByItems → MaybeGroupBy
group_clause GroupByItems.no_groups = MaybeGroupBy.no_group_by
group_clause (GroupByItems.group_then g gs) = MaybeGroupBy.group_by (GroupByItems.group_then g gs)

abbrev pub direction_of : Bool → SortDirection
direction_of asc = if asc then SortDirection.asc else SortDirection.desc

unfoldable pub keep_order : Option Expression → Bool → OrderByItems → OrderByItems
keep_order none asc os = os
keep_order (some e) asc os = OrderByItems.order_then e (some (direction_of asc)) none os

unfoldable pub order_clause : OrderByItems → MaybeOrderBy
order_clause OrderByItems.no_order = MaybeOrderBy.no_order_by
order_clause (OrderByItems.order_then e d n os) =
    MaybeOrderBy.order_by (OrderByItems.order_then e d n os)

-- `and_then(convert_limit)`
unfoldable pub limit_of : Option Expression → MaybeExpression → MaybeLimit
limit_of none offset = MaybeLimit.no_limit
limit_of (some limit) offset = MaybeLimit.limit_clause limit offset

module _ (parse_f64 : Text → Option Text) where
  unfoldable mutual
    pub convert_expr : Tsql.Expression → Option Expression
    convert_expr (Tsql.Expression.literal l) = convert_literal parse_f64 l
    convert_expr (Tsql.Expression.identifier i) = some (Expression.identifier (new i.name))
    convert_expr (Tsql.Expression.column_reference c) = some (convert_column_reference c)
    convert_expr (Tsql.Expression.unary_op op expr span) = do
      op' ← convert_unary_op op
      expr' ← convert_expr expr
      some (Expression.unary_op op' expr')
    convert_expr (Tsql.Expression.binary_op left op right span) = do
      left' ← convert_expr left
      right' ← convert_expr right
      convert_binary_op left' op right'
    convert_expr (Tsql.Expression.function_call name args distinct span) =
        some (Expression.function (new name.name) (convert_args args) distinct)
    convert_expr (Tsql.Expression.case_expression branches else_result span) = do
      conditions ← convert_branches branches
      some (
          Expression.case_expression MaybeExpression.no_expression conditions
            (convert_maybe else_result))
    convert_expr (Tsql.Expression.subquery query) = do
      query' ← convert_select query
      some (Expression.subquery query')
    convert_expr (Tsql.Expression.exists query) = do
      query' ← convert_select query
      some (Expression.exists query' false)
    convert_expr (Tsql.Expression.in_list expr list negated span) = do
      list' ← convert_in_list list
      expr' ← convert_expr expr
      some (Expression.in_list expr' list' negated)
    convert_expr (Tsql.Expression.between expr low high negated span) = do
      expr' ← convert_expr expr
      low' ← convert_expr low
      high' ← convert_expr high
      some (Expression.between expr' low' high' negated)
    convert_expr (Tsql.Expression.like expr pattern_expr escape negated span) = do
      expr' ← convert_expr expr
      pattern' ← convert_expr pattern_expr
      some (
          Expression.comparison expr'
            (if negated then ComparisonOperator.not_like else ComparisonOperator.like) pattern')
    convert_expr (Tsql.Expression.is expr negated value span) =
        convert_is value negated (convert_expr expr)

    -- `iter().filter_map(convert_expr).collect()`
    pub convert_each : Tsql.Expressions → Expressions
    convert_each Tsql.Expressions.no_expressions = Expressions.no_expressions
    convert_each (Tsql.Expressions.expression_then e es) = keep (convert_expr e) (convert_each es)

    pub convert_maybe : Tsql.MaybeExpression → MaybeExpression
    convert_maybe Tsql.MaybeExpression.no_expression = MaybeExpression.no_expression
    convert_maybe (Tsql.MaybeExpression.an_expression e) = maybe (convert_expr e)

    -- A clause that is to be converted where it stands.
    pub convert_clause : Tsql.MaybeExpression → Option MaybeExpression
    convert_clause Tsql.MaybeExpression.no_expression = some MaybeExpression.no_expression
    convert_clause (Tsql.MaybeExpression.an_expression e) = do
      e' ← convert_expr e
      some (MaybeExpression.an_expression e')

    pub convert_args : Tsql.FunctionArgs → Expressions
    convert_args Tsql.FunctionArgs.no_args = Expressions.no_expressions
    convert_args (Tsql.FunctionArgs.arg_then a as') = keep (convert_arg a) (convert_args as')

    pub convert_arg : Tsql.FunctionArg → Option Expression
    convert_arg (Tsql.FunctionArg.expression_arg e) = convert_expr e
    convert_arg (Tsql.FunctionArg.qualified_wildcard_arg i) = some star
    convert_arg Tsql.FunctionArg.wildcard_arg = some star

    pub convert_branches : Tsql.Branches → Option Conditions
    convert_branches Tsql.Branches.no_branches = some Conditions.no_conditions
    convert_branches (Tsql.Branches.branch_then condition result bs) = do
      condition' ← convert_expr condition
      result' ← convert_expr result
      rest ← convert_branches bs
      some (Conditions.condition_then condition' result' rest)

    pub convert_in_list : Tsql.InList → Option InList
    convert_in_list (Tsql.InList.values es) = some (InList.values (convert_each es))
    convert_in_list (Tsql.InList.select_list query) = do
      query' ← convert_select query
      some (InList.select_list query')

    pub convert_select : Tsql.SelectStatement → Option SelectStatement
    convert_select
          (Tsql.SelectStatement.select_statement span distinct top columns from where_clause
            group_by having order_by limit) =
        do
          projection ← convert_select_items columns
          where' ← convert_clause where_clause
          having' ← convert_clause having
          some (
              SelectStatement.select_statement no_with projection (convert_from from) where'
                (group_clause (convert_groups group_by)) having'
                (order_clause (convert_order order_by)) (convert_limit limit))

    pub convert_select_items : Tsql.SelectItems → Option SelectItems
    convert_select_items Tsql.SelectItems.no_items = some SelectItems.no_items
    convert_select_items (Tsql.SelectItems.item_then item items) = do
      item' ← convert_select_item item
      items' ← convert_select_items items
      some (SelectItems.item_then item' items')

    pub convert_select_item : Tsql.SelectItem → Option SelectItem
    convert_select_item (Tsql.SelectItem.expression_item expr alias) = do
      expr' ← convert_expr expr
      some (
          SelectItem.expression_item expr' (Option.map (λ (a : Tsql.Identifier). new a.name) alias))
    convert_select_item Tsql.SelectItem.wildcard_item = some SelectItem.wildcard
    convert_select_item (Tsql.SelectItem.qualified_wildcard_item i) =
        some (SelectItem.qualified_wildcard (new i.name))

    pub convert_from : Tsql.MaybeFrom → MaybeFrom
    convert_from Tsql.MaybeFrom.no_from = MaybeFrom.no_from
    convert_from (Tsql.MaybeFrom.from_clause tables joins) = first (convert_tables tables)

    -- The loop of `convert_from_clause`
    pub convert_tables : Tsql.TableReferences → Option (List TableFactor)
    convert_tables Tsql.TableReferences.no_tables = some []
    convert_tables (Tsql.TableReferences.table_then t ts) = do
      factors ← convert_table t
      rest ← convert_tables ts
      some (factors (rest))

    -- What one table puts before those of the others.
    pub convert_table : Tsql.TableReference → Option (List TableFactor → List TableFactor)
    convert_table (Tsql.TableReference.table_ref name alias span) = some λ rest.
        TableFactor.table (record { schema = none; name = name.name }) (alias_of alias) ∷ rest
    convert_table (Tsql.TableReference.subquery_ref query alias span) = do
      query' ← convert_select query
      some λ rest. TableFactor.derived query' (alias_of alias) ∷ rest
    convert_table (Tsql.TableReference.joined_ref joins span) = some λ rest. rest

    pub convert_groups : Tsql.Expressions → GroupByItems
    convert_groups Tsql.Expressions.no_expressions = GroupByItems.no_groups
    convert_groups (Tsql.Expressions.expression_then e es) =
        keep_group (convert_expr e) (convert_groups es)

    pub convert_order : Tsql.OrderByItems → OrderByItems
    convert_order Tsql.OrderByItems.no_order = OrderByItems.no_order
    convert_order (Tsql.OrderByItems.order_then e asc os) =
        keep_order (convert_expr e) asc (convert_order os)

    pub convert_limit : Tsql.MaybeLimit → MaybeLimit
    convert_limit Tsql.MaybeLimit.no_limit = MaybeLimit.no_limit
    convert_limit (Tsql.MaybeLimit.limit_clause limit offset) =
        limit_of (convert_expr limit) (convert_maybe offset)
