-- ===== src/Token/Tag.antt =====
-- The derived `PartialEq` of `TokenKind` (crates/tsql-token/src/kind.rs) compares discriminants.
pub mod Equality
use tsqlremaker.Base.{ℕ, ◌==◌, Bool}
use tsqlremaker.Token.Kind.{TokenKind}

-- The discriminant: the place in the declaration.
unfoldable pub tag : TokenKind → ℕ
tag TokenKind.select = 0
tag TokenKind.insert = 1
tag TokenKind.update = 2
tag TokenKind.delete = 3
tag TokenKind.merge = 4
tag TokenKind.from = 5
tag TokenKind.where_kw = 6
tag TokenKind.join = 7
tag TokenKind.inner = 8
tag TokenKind.outer = 9
tag TokenKind.left = 10
tag TokenKind.right = 11
tag TokenKind.full = 12
tag TokenKind.cross = 13
tag TokenKind.on = 14
tag TokenKind.using = 15
tag TokenKind.and = 16
tag TokenKind.or = 17
tag TokenKind.not = 18
tag TokenKind.in_kw = 19
tag TokenKind.exists = 20
tag TokenKind.between = 21
tag TokenKind.like = 22
tag TokenKind.escape = 23
tag TokenKind.is = 24
tag TokenKind.null = 25
tag TokenKind.order = 26
tag TokenKind.by = 27
tag TokenKind.asc = 28
tag TokenKind.desc = 29
tag TokenKind.group = 30
tag TokenKind.having = 31
tag TokenKind.union = 32
tag TokenKind.intersect = 33
tag TokenKind.except = 34
tag TokenKind.distinct = 35
tag TokenKind.all = 36
tag TokenKind.top = 37
tag TokenKind.limit = 38
tag TokenKind.offset = 39
tag TokenKind.first = 40
tag TokenKind.next = 41
tag TokenKind.rows = 42
tag TokenKind.only = 43
tag TokenKind.create = 44
tag TokenKind.alter = 45
tag TokenKind.drop = 46
tag TokenKind.truncate = 47
tag TokenKind.table = 48
tag TokenKind.index = 49
tag TokenKind.view = 50
tag TokenKind.procedure = 51
tag TokenKind.proc = 52
tag TokenKind.function = 53
tag TokenKind.trigger = 54
tag TokenKind.database = 55
tag TokenKind.schema = 56
tag TokenKind.constraint = 57
tag TokenKind.primary = 58
tag TokenKind.foreign = 59
tag TokenKind.key = 60
tag TokenKind.references = 61
tag TokenKind.unique = 62
tag TokenKind.check = 63
tag TokenKind.default = 64
tag TokenKind.identity = 65
tag TokenKind.autoincrement = 66
tag TokenKind.if_kw = 67
tag TokenKind.else_kw = 68
tag TokenKind.begin = 69
tag TokenKind.end = 70
tag TokenKind.while = 71
tag TokenKind.return = 72
tag TokenKind.break = 73
tag TokenKind.continue = 74
tag TokenKind.case = 75
tag TokenKind.when = 76
tag TokenKind.then_kw = 77
tag TokenKind.else_ = 78
tag TokenKind.end_ = 79
tag TokenKind.try = 80
tag TokenKind.catch = 81
tag TokenKind.throw = 82
tag TokenKind.raiserror = 83
tag TokenKind.commit = 84
tag TokenKind.rollback = 85
tag TokenKind.transaction = 86
tag TokenKind.tran = 87
tag TokenKind.save = 88
tag TokenKind.savepoint = 89
tag TokenKind.int = 90
tag TokenKind.integer = 91
tag TokenKind.smallint = 92
tag TokenKind.tinyint = 93
tag TokenKind.bigint = 94
tag TokenKind.float = 95
tag TokenKind.real = 96
tag TokenKind.double = 97
tag TokenKind.decimal = 98
tag TokenKind.numeric = 99
tag TokenKind.money = 100
tag TokenKind.smallmoney = 101
tag TokenKind.char = 102
tag TokenKind.varchar = 103
tag TokenKind.text = 104
tag TokenKind.nchar = 105
tag TokenKind.nvarchar = 106
tag TokenKind.ntext = 107
tag TokenKind.unichar = 108
tag TokenKind.univarchar = 109
tag TokenKind.unitext = 110
tag TokenKind.binary = 111
tag TokenKind.varbinary = 112
tag TokenKind.image = 113
tag TokenKind.date = 114
tag TokenKind.time = 115
tag TokenKind.datetime = 116
tag TokenKind.smalldatetime = 117
tag TokenKind.timestamp = 118
tag TokenKind.bigdatetime = 119
tag TokenKind.bit = 120
tag TokenKind.uniqueidentifier = 121
tag TokenKind.as_kw = 122
tag TokenKind.set = 123
tag TokenKind.declare = 124
tag TokenKind.exec = 125
tag TokenKind.execute = 126
tag TokenKind.into = 127
tag TokenKind.values = 128
tag TokenKind.output = 129
tag TokenKind.cursor = 130
tag TokenKind.open_kw = 131
tag TokenKind.close = 132
tag TokenKind.deallocate = 133
tag TokenKind.grant = 134
tag TokenKind.revoke = 135
tag TokenKind.deny = 136
tag TokenKind.print = 137
tag TokenKind.waitfor = 138
tag TokenKind.goto = 139
tag TokenKind.label = 140
tag TokenKind.go = 141
tag TokenKind.ident = 142
tag TokenKind.quoted_ident = 143
tag TokenKind.number = 144
tag TokenKind.float_literal = 145
tag TokenKind.string = 146
tag TokenKind.nstring = 147
tag TokenKind.unicode_string = 148
tag TokenKind.hex_string = 149
tag TokenKind.eq = 150
tag TokenKind.ne = 151
tag TokenKind.ne_alt = 152
tag TokenKind.lt = 153
tag TokenKind.gt = 154
tag TokenKind.le = 155
tag TokenKind.ge = 156
tag TokenKind.not_lt = 157
tag TokenKind.not_gt = 158
tag TokenKind.plus = 159
tag TokenKind.minus = 160
tag TokenKind.star = 161
tag TokenKind.slash = 162
tag TokenKind.percent = 163
tag TokenKind.ampersand = 164
tag TokenKind.pipe = 165
tag TokenKind.caret = 166
tag TokenKind.tilde = 167
tag TokenKind.assign = 168
tag TokenKind.plus_assign = 169
tag TokenKind.minus_assign = 170
tag TokenKind.star_assign = 171
tag TokenKind.slash_assign = 172
tag TokenKind.concat = 173
tag TokenKind.lparen = 174
tag TokenKind.rparen = 175
tag TokenKind.lbracket = 176
tag TokenKind.rbracket = 177
tag TokenKind.lbrace = 178
tag TokenKind.rbrace = 179
tag TokenKind.comma = 180
tag TokenKind.semicolon = 181
tag TokenKind.colon = 182
tag TokenKind.dot = 183
tag TokenKind.dot_dot = 184
tag TokenKind.local_var = 185
tag TokenKind.global_var = 186
tag TokenKind.temp_table = 187
tag TokenKind.global_temp_table = 188
tag TokenKind.whitespace = 189
tag TokenKind.newline = 190
tag TokenKind.line_comment = 191
tag TokenKind.block_comment = 192
tag TokenKind.eof = 193
tag TokenKind.unknown = 194

-- `a == b`, and with it `matches!(a, b)`.
unfoldable pub is_kind : TokenKind → TokenKind → Bool
unfolding tag
is_kind a b = tag a == tag b
