-- ===== src/Token/Reserved.antt =====
-- `TokenKind::is_keyword` (crates/tsql-token/src/kind.rs).
use tsqlremaker.Base.{Bool, true, false}
use tsqlremaker.Token.Kind.{TokenKind}

unfoldable pub is_keyword : TokenKind → Bool
is_keyword TokenKind.select = true
is_keyword TokenKind.insert = true
is_keyword TokenKind.update = true
is_keyword TokenKind.delete = true
is_keyword TokenKind.merge = true
is_keyword TokenKind.from = true
is_keyword TokenKind.where_kw = true
is_keyword TokenKind.join = true
is_keyword TokenKind.inner = true
is_keyword TokenKind.outer = true
is_keyword TokenKind.left = true
is_keyword TokenKind.right = true
is_keyword TokenKind.full = true
is_keyword TokenKind.cross = true
is_keyword TokenKind.on = true
is_keyword TokenKind.and = true
is_keyword TokenKind.or = true
is_keyword TokenKind.not = true
is_keyword TokenKind.in_kw = true
is_keyword TokenKind.exists = true
is_keyword TokenKind.between = true
is_keyword TokenKind.like = true
is_keyword TokenKind.is = true
is_keyword TokenKind.null = true
is_keyword TokenKind.order = true
is_keyword TokenKind.by = true
is_keyword TokenKind.asc = true
is_keyword TokenKind.desc = true
is_keyword TokenKind.group = true
is_keyword TokenKind.having = true
is_keyword TokenKind.union = true
is_keyword TokenKind.intersect = true
is_keyword TokenKind.except = true
is_keyword TokenKind.distinct = true
is_keyword TokenKind.all = true
is_keyword TokenKind.top = true
is_keyword TokenKind.limit = true
is_keyword TokenKind.offset = true
is_keyword TokenKind.first = true
is_keyword TokenKind.next = true
is_keyword TokenKind.rows = true
is_keyword TokenKind.only = true
is_keyword TokenKind.create = true
is_keyword TokenKind.alter = true
is_keyword TokenKind.drop = true
is_keyword TokenKind.truncate = true
is_keyword TokenKind.table = true
is_keyword TokenKind.index = true
is_keyword TokenKind.view = true
is_keyword TokenKind.procedure = true
is_keyword TokenKind.proc = true
is_keyword TokenKind.function = true
is_keyword TokenKind.trigger = true
is_keyword TokenKind.database = true
is_keyword TokenKind.schema = true
is_keyword TokenKind.constraint = true
is_keyword TokenKind.primary = true
is_keyword TokenKind.foreign = true
is_keyword TokenKind.key = true
is_keyword TokenKind.references = true
is_keyword TokenKind.unique = true
is_keyword TokenKind.check = true
is_keyword TokenKind.default = true
is_keyword TokenKind.identity = true
is_keyword TokenKind.autoincrement = true
is_keyword TokenKind.if_kw = true
is_keyword TokenKind.else_kw = true
is_keyword TokenKind.begin = true
is_keyword TokenKind.end = true
is_keyword TokenKind.while = true
is_keyword TokenKind.return = true
is_keyword TokenKind.break = true
is_keyword TokenKind.continue = true
is_keyword TokenKind.case = true
is_keyword TokenKind.when = true
is_keyword TokenKind.then_kw = true
is_keyword TokenKind.else_ = true
is_keyword TokenKind.end_ = true
is_keyword TokenKind.try = true
is_keyword TokenKind.catch = true
is_keyword TokenKind.throw = true
is_keyword TokenKind.raiserror = true
is_keyword TokenKind.commit = true
is_keyword TokenKind.rollback = true
is_keyword TokenKind.transaction = true
is_keyword TokenKind.tran = true
is_keyword TokenKind.save = true
is_keyword TokenKind.savepoint = true
is_keyword TokenKind.go = true
is_keyword TokenKind.exec = true
is_keyword TokenKind.execute = true
is_keyword _ = false
