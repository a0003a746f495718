-- ===== src/Token/Tag/Equality.antt =====
-- Kinds with one discriminant are one kind.
use tsqlremaker.Base.{ℕ, ◌≡◌, ◌↔◌, refl, ap, true, Option, some, ==_iff, List, [], ◌∷◌, get_elem?}
use tsqlremaker.Token.Kind.{TokenKind}
use tsqlremaker.Token.Tag.{tag, is_kind}

-- The kinds in the order of their declaration.
abbrev kinds : List TokenKind
kinds =
    TokenKind.select ∷ TokenKind.insert ∷ TokenKind.update ∷ TokenKind.delete ∷ TokenKind.merge
    ∷ TokenKind.from ∷ TokenKind.where_kw ∷ TokenKind.join ∷ TokenKind.inner ∷ TokenKind.outer
    ∷ TokenKind.left ∷ TokenKind.right ∷ TokenKind.full ∷ TokenKind.cross ∷ TokenKind.on
    ∷ TokenKind.using ∷ TokenKind.and ∷ TokenKind.or ∷ TokenKind.not ∷ TokenKind.in_kw
    ∷ TokenKind.exists ∷ TokenKind.between ∷ TokenKind.like ∷ TokenKind.escape ∷ TokenKind.is
    ∷ TokenKind.null ∷ TokenKind.order ∷ TokenKind.by ∷ TokenKind.asc ∷ TokenKind.desc
    ∷ TokenKind.group ∷ TokenKind.having ∷ TokenKind.union ∷ TokenKind.intersect ∷ TokenKind.except
    ∷ TokenKind.distinct ∷ TokenKind.all ∷ TokenKind.top ∷ TokenKind.limit ∷ TokenKind.offset
    ∷ TokenKind.first ∷ TokenKind.next ∷ TokenKind.rows ∷ TokenKind.only ∷ TokenKind.create
    ∷ TokenKind.alter ∷ TokenKind.drop ∷ TokenKind.truncate ∷ TokenKind.table ∷ TokenKind.index
    ∷ TokenKind.view ∷ TokenKind.procedure ∷ TokenKind.proc ∷ TokenKind.function ∷ TokenKind.trigger
    ∷ TokenKind.database ∷ TokenKind.schema ∷ TokenKind.constraint ∷ TokenKind.primary
    ∷ TokenKind.foreign ∷ TokenKind.key ∷ TokenKind.references ∷ TokenKind.unique ∷ TokenKind.check
    ∷ TokenKind.default ∷ TokenKind.identity ∷ TokenKind.autoincrement ∷ TokenKind.if_kw
    ∷ TokenKind.else_kw ∷ TokenKind.begin ∷ TokenKind.end ∷ TokenKind.while ∷ TokenKind.return
    ∷ TokenKind.break ∷ TokenKind.continue ∷ TokenKind.case ∷ TokenKind.when ∷ TokenKind.then_kw
    ∷ TokenKind.else_ ∷ TokenKind.end_ ∷ TokenKind.try ∷ TokenKind.catch ∷ TokenKind.throw
    ∷ TokenKind.raiserror ∷ TokenKind.commit ∷ TokenKind.rollback ∷ TokenKind.transaction
    ∷ TokenKind.tran ∷ TokenKind.save ∷ TokenKind.savepoint ∷ TokenKind.int ∷ TokenKind.integer
    ∷ TokenKind.smallint ∷ TokenKind.tinyint ∷ TokenKind.bigint ∷ TokenKind.float ∷ TokenKind.real
    ∷ TokenKind.double ∷ TokenKind.decimal ∷ TokenKind.numeric ∷ TokenKind.money
    ∷ TokenKind.smallmoney ∷ TokenKind.char ∷ TokenKind.varchar ∷ TokenKind.text ∷ TokenKind.nchar
    ∷ TokenKind.nvarchar ∷ TokenKind.ntext ∷ TokenKind.unichar ∷ TokenKind.univarchar
    ∷ TokenKind.unitext ∷ TokenKind.binary ∷ TokenKind.varbinary ∷ TokenKind.image ∷ TokenKind.date
    ∷ TokenKind.time ∷ TokenKind.datetime ∷ TokenKind.smalldatetime ∷ TokenKind.timestamp
    ∷ TokenKind.bigdatetime ∷ TokenKind.bit ∷ TokenKind.uniqueidentifier ∷ TokenKind.as_kw
    ∷ TokenKind.set ∷ TokenKind.declare ∷ TokenKind.exec ∷ TokenKind.execute ∷ TokenKind.into
    ∷ TokenKind.values ∷ TokenKind.output ∷ TokenKind.cursor ∷ TokenKind.open_kw ∷ TokenKind.close
    ∷ TokenKind.deallocate ∷ TokenKind.grant ∷ TokenKind.revoke ∷ TokenKind.deny ∷ TokenKind.print
    ∷ TokenKind.waitfor ∷ TokenKind.goto ∷ TokenKind.label ∷ TokenKind.go ∷ TokenKind.ident
    ∷ TokenKind.quoted_ident ∷ TokenKind.number ∷ TokenKind.float_literal ∷ TokenKind.string
    ∷ TokenKind.nstring ∷ TokenKind.unicode_string ∷ TokenKind.hex_string ∷ TokenKind.eq
    ∷ TokenKind.ne ∷ TokenKind.ne_alt ∷ TokenKind.lt ∷ TokenKind.gt ∷ TokenKind.le ∷ TokenKind.ge
    ∷ TokenKind.not_lt ∷ TokenKind.not_gt ∷ TokenKind.plus ∷ TokenKind.minus ∷ TokenKind.star
    ∷ TokenKind.slash ∷ TokenKind.percent ∷ TokenKind.ampersand ∷ TokenKind.pipe ∷ TokenKind.caret
    ∷ TokenKind.tilde ∷ TokenKind.assign ∷ TokenKind.plus_assign ∷ TokenKind.minus_assign
    ∷ TokenKind.star_assign ∷ TokenKind.slash_assign ∷ TokenKind.concat ∷ TokenKind.lparen
    ∷ TokenKind.rparen ∷ TokenKind.lbracket ∷ TokenKind.rbracket ∷ TokenKind.lbrace
    ∷ TokenKind.rbrace ∷ TokenKind.comma ∷ TokenKind.semicolon ∷ TokenKind.colon ∷ TokenKind.dot
    ∷ TokenKind.dot_dot ∷ TokenKind.local_var ∷ TokenKind.global_var ∷ TokenKind.temp_table
    ∷ TokenKind.global_temp_table ∷ TokenKind.whitespace ∷ TokenKind.newline
    ∷ TokenKind.line_comment ∷ TokenKind.block_comment ∷ TokenKind.eof ∷ TokenKind.unknown ∷ []

of_tag : ℕ → Option TokenKind
of_tag = get_elem? kinds

of_tag-tag : (k : TokenKind) → of_tag (tag k) ≡ some k
unfolding tag of_tag
of_tag-tag TokenKind.select = refl
of_tag-tag _ = refl

tag-injective : (a b : TokenKind) → tag a ≡ tag b → a ≡ b
tag-injective a b h = cc (of_tag-tag a, of_tag-tag b)

pub is_kind_iff : (a b : TokenKind) → (is_kind a b ≡ true) ↔ (a ≡ b)
unfolding is_kind
is_kind_iff a b = (
  λ h. tag-injective a b ((==_iff (tag a) (tag b)).0 h),
  λ e. (==_iff (tag a) (tag b)).1 (ap tag e),
)
