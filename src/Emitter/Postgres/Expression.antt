-- ===== src/Emitter/Postgres/Expression.antt =====
-- `ExpressionEmitter::emit` and `SelectStatementRenderer::emit`
-- (crates/postgresql-emitter/src/mappers/expression.rs and select_statement.rs).

use tsqlremaker.Base.{Bool, if◌then◌else◌, List, [], ◌∷◌, ◌++◌, Option, none, some, Text, codes}
use tsqlremaker.Common.Ddl.{Identifier, SortDirection}
use tsqlremaker.Common.Ast.{
  Expression, MaybeExpression, Expressions, Conditions, InList, SelectStatement, SelectItem,
  SelectItems, MaybeFrom, TableFactor, TableAlias, MaybeGroupBy, GroupByItem, GroupByItems,
  MaybeOrderBy, OrderByItems, MaybeLimit,
}
use tsqlremaker.Emitter.Quoting.{quote}
use tsqlremaker.Emitter.Postgres.Words.{
  format, join, emit_literal, emit_unary_op, emit_binary_op, emit_comparison_op, emit_logical_op,
  emit_data_type, join_word, emit_identifier, emit_qualified_identifier, emit_qualified_name,
}

abbrev pub not_word : Bool → Text
not_word negated = if negated then codes "NOT " else []

abbrev pub neg_word : Bool → Text
neg_word negated = if negated then codes " NOT" else []

abbrev pub distinct_word : Bool → Text
distinct_word distinct = if distinct then codes "DISTINCT " else []

-- `({} {} {})`
abbrev pub in_parens : Text → Text → Text → Text
in_parens left op right =
    format (codes "(" ∷ left ∷ codes " " ∷ op ∷ codes " " ∷ right ∷ codes ")" ∷ [])

unfoldable pub direction_word : Option SortDirection → Text
direction_word none = []
direction_word (some SortDirection.asc) = codes " ASC"
direction_word (some SortDirection.desc) = codes " DESC"

-- Over `str::to_uppercase` and the derived `Debug` of an item of GROUP BY.
module _ (to_uppercase : Text → Text) (debug : GroupByItem → Text) where
  unfoldable pub aliased : Text → Option Text → Text
  aliased text none = text
  aliased text (some alias) = format (text ∷ codes " AS " ∷ quote to_uppercase alias ∷ [])

  abbrev pub alias_name : Option TableAlias → Option Text
  alias_name none = none
  alias_name (some a) = some a.name

  abbrev pub alias_value : Option Identifier → Option Text
  alias_value none = none
  alias_value (some a) = some a.value

  unfoldable mutual
    pub emit : Expression → Text
    emit (Expression.literal l) = emit_literal l
    emit (Expression.identifier i) = emit_identifier to_uppercase i
    emit (Expression.qualified_identifier t c) = emit_qualified_identifier to_uppercase t c
    emit (Expression.unary_op op e) = format (emit_unary_op op ∷ codes " " ∷ emit e ∷ [])
    emit (Expression.binary_op l op r) = in_parens (emit l) (emit_binary_op op) (emit r)
    emit (Expression.comparison l op r) = in_parens (emit l) (emit_comparison_op op) (emit r)
    emit (Expression.logical_op l op r) = in_parens (emit l) (emit_logical_op op) (emit r)
    emit (Expression.function name args distinct) = format (
        name.value
        ∷ codes "("
        ∷ distinct_word distinct
        ∷ join (codes ", ") (emit_each args)
        ∷ codes ")"
        ∷ [])
    emit (Expression.case_expression operand conditions else_result) = join (codes "\n") (
        case_head operand
        ∷ (emit_conditions conditions ++ (else_part else_result ++ (codes "END" ∷ []))))
    emit (Expression.in_list e list negated) =
        format (emit e ∷ neg_word negated ∷ codes " IN " ∷ emit_in_list list ∷ [])
    emit (Expression.between e low high negated) = format (
        emit e
        ∷ codes " "
        ∷ not_word negated
        ∷ codes "BETWEEN "
        ∷ emit low
        ∷ codes " AND "
        ∷ emit high
        ∷ [])
    emit (Expression.cast e data_type) =
        format (codes "CAST(" ∷ emit e ∷ codes " AS " ∷ emit_data_type data_type ∷ codes ")" ∷ [])
    emit (Expression.is_null e negated) =
        format (emit e ∷ codes " IS " ∷ not_word negated ∷ codes "NULL" ∷ [])
    emit (Expression.subquery query) = format (codes "(" ∷ emit_select query ∷ codes ")" ∷ [])
    emit (Expression.exists query negated) =
        format (not_word negated ∷ codes "EXISTS (" ∷ emit_select query ∷ codes ")" ∷ [])

    pub emit_each : Expressions → List Text
    emit_each Expressions.no_expressions = []
    emit_each (Expressions.expression_then e es) = emit e ∷ emit_each es

    pub case_head : MaybeExpression → Text
    case_head MaybeExpression.no_expression = codes "CASE"
    case_head (MaybeExpression.an_expression e) = format (codes "CASE " ∷ emit e ∷ [])

    pub emit_conditions : Conditions → List Text
    emit_conditions Conditions.no_conditions = []
    emit_conditions (Conditions.condition_then c r cs) =
        format (codes "    WHEN " ∷ emit c ∷ codes " THEN " ∷ emit r ∷ []) ∷ emit_conditions cs

    pub else_part : MaybeExpression → List Text
    else_part MaybeExpression.no_expression = []
    else_part (MaybeExpression.an_expression e) = format (codes "    ELSE " ∷ emit e ∷ []) ∷ []

    pub emit_in_list : InList → Text
    emit_in_list (InList.values es) =
        format (codes "(" ∷ join (codes ", ") (emit_each es) ∷ codes ")" ∷ [])
    emit_in_list (InList.select_list query) =
        format (codes "(" ∷ emit_select query ∷ codes ")" ∷ [])

    -- `SelectStatementRenderer::emit`
    pub emit_select : SelectStatement → Text
    emit_select (SelectStatement.select_statement w projection from condition g having o l) =
        join (codes " ") (
          codes "SELECT"
          ∷ projection_text projection
          ∷ (from_part from
              ++ (clause_part (codes "WHERE ") condition
                  ++ (group_part g
                      ++ (clause_part (codes "HAVING ") having
                          ++ (order_part o ++ limit_part l))))))

    pub projection_text : SelectItems → Text
    projection_text SelectItems.no_items = codes "*"
    projection_text (SelectItems.item_then item items) =
        join (codes ", ") (emit_select_item item ∷ emit_select_items items)

    pub emit_select_items : SelectItems → List Text
    emit_select_items SelectItems.no_items = []
    emit_select_items (SelectItems.item_then item items) =
        emit_select_item item ∷ emit_select_items items

    pub emit_select_item : SelectItem → Text
    emit_select_item (SelectItem.expression_item e alias) = aliased (emit e) (alias_value alias)
    emit_select_item SelectItem.wildcard = codes "*"
    emit_select_item (SelectItem.qualified_wildcard table) =
        format (quote to_uppercase table.value ∷ codes ".*" ∷ [])

    pub from_part : MaybeFrom → List Text
    from_part MaybeFrom.no_from = []
    from_part (MaybeFrom.a_from factor) =
        format (codes "FROM " ∷ emit_table_factor factor ∷ []) ∷ []

    pub clause_part : Text → MaybeExpression → List Text
    clause_part word MaybeExpression.no_expression = []
    clause_part word (MaybeExpression.an_expression e) = format (word ∷ emit e ∷ []) ∷ []

    pub group_part : MaybeGroupBy → List Text
    group_part MaybeGroupBy.no_group_by = []
    group_part (MaybeGroupBy.group_by items) =
        format (codes "GROUP BY " ∷ join (codes ", ") (emit_group_by_items items) ∷ []) ∷ []

    pub emit_group_by_items : GroupByItems → List Text
    emit_group_by_items GroupByItems.no_groups = []
    emit_group_by_items (GroupByItems.group_then g gs) =
        emit_group_by_item g ∷ emit_group_by_items gs

    pub emit_group_by_item : GroupByItem → Text
    emit_group_by_item (GroupByItem.expression_group e) = emit e
    emit_group_by_item other =
        format (codes "/* unsupported GROUP BY item: " ∷ debug other ∷ codes " */" ∷ [])

    pub emit_table_factor : TableFactor → Text
    emit_table_factor (TableFactor.table name alias) =
        aliased (emit_qualified_name to_uppercase name) (alias_name alias)
    emit_table_factor (TableFactor.derived query alias) =
        aliased (format (codes "(" ∷ emit_select query ∷ codes ")" ∷ [])) (alias_name alias)
    emit_table_factor (TableFactor.join join_type right condition lateral) =
        format (join_word join_type ∷ codes " " ∷ emit_table_factor right ∷ [])

    pub order_part : MaybeOrderBy → List Text
    order_part MaybeOrderBy.no_order_by = []
    order_part (MaybeOrderBy.order_by items) =
        format (codes "ORDER BY " ∷ join (codes ", ") (emit_order_by_items items) ∷ []) ∷ []

    pub emit_order_by_items : OrderByItems → List Text
    emit_order_by_items OrderByItems.no_order = []
    emit_order_by_items (OrderByItems.order_then e direction nulls os) =
        format (emit e ∷ direction_word direction ∷ []) ∷ emit_order_by_items os

    pub limit_part : MaybeLimit → List Text
    limit_part MaybeLimit.no_limit = []
    limit_part (MaybeLimit.limit_clause limit offset) =
        format (codes "LIMIT " ∷ emit limit ∷ offset_text offset ∷ []) ∷ []

    pub offset_text : MaybeExpression → Text
    offset_text MaybeExpression.no_expression = []
    offset_text (MaybeExpression.an_expression e) = format (codes " OFFSET " ∷ emit e ∷ [])
