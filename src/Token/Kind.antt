-- ===== src/Token/Kind.antt =====
-- The token kinds of the lexer (crates/tsql-token/src/kind.rs). A kind whose name is a word of this
-- language ends in `_kw`: `in_kw` is `TokenKind::In`.
pub data TokenKind : Type 0 where
  select insert update delete merge from where_kw join inner outer left right full : TokenKind
  cross on using and or not in_kw exists between like escape is null order by asc desc : TokenKind
  group having union intersect except distinct all top limit offset first next rows : TokenKind
  only : TokenKind
  create alter drop truncate table index view procedure proc function trigger database : TokenKind
  schema constraint primary foreign key references unique check default identity : TokenKind
  autoincrement : TokenKind
  if_kw else_kw begin end while return break continue case when then_kw else_ end_ try : TokenKind
  catch throw raiserror : TokenKind
  commit rollback transaction tran save savepoint : TokenKind
  int integer smallint tinyint bigint float real double decimal numeric money : TokenKind
  smallmoney char varchar text nchar nvarchar ntext unichar univarchar unitext binary : TokenKind
  varbinary image date time datetime smalldatetime timestamp bigdatetime bit : TokenKind
  uniqueidentifier : TokenKind
  as_kw set declare exec execute into values output cursor open_kw close deallocate : TokenKind
  grant revoke deny print waitfor goto label go : TokenKind
  ident quoted_ident number float_literal string nstring unicode_string hex_string : TokenKind
  eq ne ne_alt lt gt le ge not_lt not_gt : TokenKind
  plus minus star slash percent : TokenKind
  ampersand pipe caret tilde : TokenKind
  assign plus_assign minus_assign star_assign slash_assign : TokenKind
  concat : TokenKind
  lparen rparen lbracket rbracket lbrace rbrace comma semicolon colon dot dot_dot : TokenKind
  local_var global_var temp_table global_temp_table : TokenKind
  whitespace newline line_comment block_comment eof unknown : TokenKind

pub TokenKind-discrete : Discrete TokenKind
TokenKind-discrete = hlevel
