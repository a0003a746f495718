-- ===== src/Token/Keyword.antt =====
-- The keyword map (crates/tsql-token/src/keyword.rs).
pub mod Laws
use tsqlremaker.Base.{
  ℕ, Bool, true, false, List, [], ◌∷◌, Option, none, some, map, length, ltb, if◌then◌else◌, Text,
  codes, utf8, text_eq, to_ascii_lowercase,
}
use tsqlremaker.Token.Kind.{TokenKind}

-- `KEYWORDS`: what `HashMap::insert` was given, in order. No key stands there twice.
unfoldable pub keywords : List (Text × TokenKind)
keywords =
    (codes "select", TokenKind.select)
    ∷ (codes "insert", TokenKind.insert)
    ∷ (codes "update", TokenKind.update)
    ∷ (codes "delete", TokenKind.delete)
    ∷ (codes "merge", TokenKind.merge)
    ∷ (codes "from", TokenKind.from)
    ∷ (codes "where", TokenKind.where_kw)
    ∷ (codes "join", TokenKind.join)
    ∷ (codes "inner", TokenKind.inner)
    ∷ (codes "outer", TokenKind.outer)
    ∷ (codes "left", TokenKind.left)
    ∷ (codes "right", TokenKind.right)
    ∷ (codes "full", TokenKind.full)
    ∷ (codes "cross", TokenKind.cross)
    ∷ (codes "on", TokenKind.on)
    ∷ (codes "using", TokenKind.using)
    ∷ (codes "and", TokenKind.and)
    ∷ (codes "or", TokenKind.or)
    ∷ (codes "not", TokenKind.not)
    ∷ (codes "in", TokenKind.in_kw)
    ∷ (codes "exists", TokenKind.exists)
    ∷ (codes "between", TokenKind.between)
    ∷ (codes "like", TokenKind.like)
    ∷ (codes "escape", TokenKind.escape)
    ∷ (codes "is", TokenKind.is)
    ∷ (codes "null", TokenKind.null)
    ∷ (codes "order", TokenKind.order)
    ∷ (codes "by", TokenKind.by)
    ∷ (codes "asc", TokenKind.asc)
    ∷ (codes "desc", TokenKind.desc)
    ∷ (codes "group", TokenKind.group)
    ∷ (codes "having", TokenKind.having)
    ∷ (codes "union", TokenKind.union)
    ∷ (codes "intersect", TokenKind.intersect)
    ∷ (codes "except", TokenKind.except)
    ∷ (codes "distinct", TokenKind.distinct)
    ∷ (codes "all", TokenKind.all)
    ∷ (codes "top", TokenKind.top)
    ∷ (codes "limit", TokenKind.limit)
    ∷ (codes "offset", TokenKind.offset)
    ∷ (codes "first", TokenKind.first)
    ∷ (codes "next", TokenKind.next)
    ∷ (codes "rows", TokenKind.rows)
    ∷ (codes "only", TokenKind.only)
    ∷ (codes "create", TokenKind.create)
    ∷ (codes "alter", TokenKind.alter)
    ∷ (codes "drop", TokenKind.drop)
    ∷ (codes "truncate", TokenKind.truncate)
    ∷ (codes "table", TokenKind.table)
    ∷ (codes "index", TokenKind.index)
    ∷ (codes "view", TokenKind.view)
    ∷ (codes "procedure", TokenKind.procedure)
    ∷ (codes "proc", TokenKind.proc)
    ∷ (codes "function", TokenKind.function)
    ∷ (codes "trigger", TokenKind.trigger)
    ∷ (codes "database", TokenKind.database)
    ∷ (codes "schema", TokenKind.schema)
    ∷ (codes "constraint", TokenKind.constraint)
    ∷ (codes "primary", TokenKind.primary)
    ∷ (codes "foreign", TokenKind.foreign)
    ∷ (codes "key", TokenKind.key)
    ∷ (codes "references", TokenKind.references)
    ∷ (codes "unique", TokenKind.unique)
    ∷ (codes "check", TokenKind.check)
    ∷ (codes "default", TokenKind.default)
    ∷ (codes "identity", TokenKind.identity)
    ∷ (codes "autoincrement", TokenKind.autoincrement)
    ∷ (codes "if", TokenKind.if_kw)
    ∷ (codes "else", TokenKind.else_kw)
    ∷ (codes "begin", TokenKind.begin)
    ∷ (codes "end", TokenKind.end)
    ∷ (codes "while", TokenKind.while)
    ∷ (codes "return", TokenKind.return)
    ∷ (codes "break", TokenKind.break)
    ∷ (codes "continue", TokenKind.continue)
    ∷ (codes "case", TokenKind.case)
    ∷ (codes "when", TokenKind.when)
    ∷ (codes "then", TokenKind.then_kw)
    ∷ (codes "try", TokenKind.try)
    ∷ (codes "catch", TokenKind.catch)
    ∷ (codes "throw", TokenKind.throw)
    ∷ (codes "raiserror", TokenKind.raiserror)
    ∷ (codes "commit", TokenKind.commit)
    ∷ (codes "rollback", TokenKind.rollback)
    ∷ (codes "transaction", TokenKind.transaction)
    ∷ (codes "tran", TokenKind.tran)
    ∷ (codes "save", TokenKind.save)
    ∷ (codes "savepoint", TokenKind.savepoint)
    ∷ (codes "int", TokenKind.int)
    ∷ (codes "integer", TokenKind.integer)
    ∷ (codes "smallint", TokenKind.smallint)
    ∷ (codes "tinyint", TokenKind.tinyint)
    ∷ (codes "bigint", TokenKind.bigint)
    ∷ (codes "float", TokenKind.float)
    ∷ (codes "real", TokenKind.real)
    ∷ (codes "double", TokenKind.double)
    ∷ (codes "decimal", TokenKind.decimal)
    ∷ (codes "numeric", TokenKind.numeric)
    ∷ (codes "money", TokenKind.money)
    ∷ (codes "smallmoney", TokenKind.smallmoney)
    ∷ (codes "char", TokenKind.char)
    ∷ (codes "varchar", TokenKind.varchar)
    ∷ (codes "text", TokenKind.text)
    ∷ (codes "nchar", TokenKind.nchar)
    ∷ (codes "nvarchar", TokenKind.nvarchar)
    ∷ (codes "ntext", TokenKind.ntext)
    ∷ (codes "unichar", TokenKind.unichar)
    ∷ (codes "univarchar", TokenKind.univarchar)
    ∷ (codes "unitext", TokenKind.unitext)
    ∷ (codes "binary", TokenKind.binary)
    ∷ (codes "varbinary", TokenKind.varbinary)
    ∷ (codes "image", TokenKind.image)
    ∷ (codes "date", TokenKind.date)
    ∷ (codes "time", TokenKind.time)
    ∷ (codes "datetime", TokenKind.datetime)
    ∷ (codes "smalldatetime", TokenKind.smalldatetime)
    ∷ (codes "timestamp", TokenKind.timestamp)
    ∷ (codes "bigdatetime", TokenKind.bigdatetime)
    ∷ (codes "bit", TokenKind.bit)
    ∷ (codes "uniqueidentifier", TokenKind.uniqueidentifier)
    ∷ (codes "as", TokenKind.as_kw)
    ∷ (codes "set", TokenKind.set)
    ∷ (codes "declare", TokenKind.declare)
    ∷ (codes "exec", TokenKind.exec)
    ∷ (codes "execute", TokenKind.execute)
    ∷ (codes "into", TokenKind.into)
    ∷ (codes "values", TokenKind.values)
    ∷ (codes "output", TokenKind.output)
    ∷ (codes "cursor", TokenKind.cursor)
    ∷ (codes "open", TokenKind.open_kw)
    ∷ (codes "close", TokenKind.close)
    ∷ (codes "deallocate", TokenKind.deallocate)
    ∷ (codes "grant", TokenKind.grant)
    ∷ (codes "revoke", TokenKind.revoke)
    ∷ (codes "deny", TokenKind.deny)
    ∷ (codes "print", TokenKind.print)
    ∷ (codes "waitfor", TokenKind.waitfor)
    ∷ (codes "goto", TokenKind.goto)
    ∷ (codes "label", TokenKind.label)
    ∷ (codes "go", TokenKind.go)
    ∷ []

-- `HashMap::get`
unfoldable pub get : List (Text × TokenKind) → Text → Option TokenKind
unfolding text_eq
get [] w = none
get ((k, v) ∷ m) w = if text_eq k w then some v else get m w

abbrev pub unwrap_or : Option TokenKind → TokenKind → TokenKind
unwrap_or none d = d
unwrap_or (some k) d = k

abbrev pub max_keyword_len : ℕ
max_keyword_len = 32

-- `TokenKind::from_ident` over a map `m`. Lowering ASCII letters keeps the bytes valid UTF-8, so
-- the branch of `from_utf8` that fails is not there.
unfoldable pub resolve : List (Text × TokenKind) → Text → TokenKind
unfolding utf8 to_ascii_lowercase get
resolve m s =
    let bytes = utf8 s in
    if ltb max_keyword_len (length bytes)
    then TokenKind.ident
    else unwrap_or (get m (map to_ascii_lowercase bytes)) TokenKind.ident

unfoldable pub from_ident : Text → TokenKind
unfolding resolve
from_ident = resolve keywords
