-- ===== src/Lib.antt =====
-- The front end of tsqlremaker, which reads SAP ASE T-SQL: what a text is cut into, where, and which
-- expressions it stands for; the translation of its tree to Common SQL, the tree between the
-- dialects; and parts of its PostgreSQL emitter, of its language server and of its comparison of
-- schemas.
--
-- A text goes through a cursor, which knows its line, column and byte offset, to the lexer, which
-- makes tokens of it. The parser reads the tokens through a buffer that looks ahead, and makes
-- expressions of them. `to_common_sql` makes a statement of Common SQL of a statement of T-SQL, or
-- nothing, and an emitter writes it in its dialect. The language server counts lines on its own, by a table of their starts.
--
-- The parts and their files:
-- - Token: crates/tsql-token. Token.Kind is the enumeration `TokenKind` of src/kind.rs, with
--   Token.Reserved for `is_keyword` and Token.Tag for its equality; Token.Keyword is src/keyword.rs,
--   the table and `from_ident`; Token.Position is src/position.rs.
-- - Lexer.Cursor: crates/tsql-lexer/src/cursor.rs. A text is a list of code points; `char_indices`
--   pairs each with its byte index, and `peek`, `bump` and `is_eof` read it as the source does. The
--   position counts in `u32` with its wrap-around.
-- - Lexer.Error: crates/tsql-lexer/src/error.rs.
-- - Lexer.Token, Lexer.Read and Lexer.Stream: crates/tsql-lexer/src/lexer.rs. Lexer.Read has one
--   function per reader (`read_string`, `read_number` and so on), from a cursor to a token or an
--   error with the cursor behind it. Lexer.Stream has the record `Lexer`, `next_token`, `peek` (as
--   `peek_token`), the recovery from errors and the iterator (as `collect`).
-- - Parser.Buffer: crates/tsql-parser/src/buffer.rs, the ring of three tokens, over any function that
--   stands for `Lexer::next_token`; Parser.Buffer.Lexing puts the lexer there. Parser.Error is
--   src/error.rs of that crate.
-- - Parser.Ast, Parser.Monad and Parser.Expression: crates/tsql-parser/src/ast/expression.rs and
--   select.rs, and crates/tsql-parser/src/expression. Parser.Monad has the record `ExpressionParser`
--   and the `?` operator; Parser.Expression.Power is binary.rs, Function is function.rs, Special is
--   special.rs, Prefix is prefix.rs, and Pratt and Subquery are mod.rs, with `parse_bp` as `bp_body`
--   and `parse_subquery_select` as `parse_select`. The calls of these two into themselves are the
--   record `Calls`, which `level` fills for each unit of fuel. The buffer of the expression parser is
--   the list of the tokens to come, the abstract view of Parser.Buffer.
-- - Parser.Statements: crates/tsql-parser/src/parser, `parse` and `parse_with_errors` of mod.rs and
--   `synchronize` of helpers.rs. `parse_statement` chooses by the kind of the token; the parsers of
--   the single statements are a function from a state to an answer and a state.
-- - Server.LineIndex: crates/ase-ls-core/src/line_index.rs, the table of line starts with which the
--   language server makes positions of byte offsets and offsets of positions. Server.Incremental is
--   src/incremental.rs, which uses it for the edits of a document.
-- - Parser.Ast.Definition and Parser.Ast.Statement: the trees of statements in
--   crates/tsql-parser/src/ast (data_modification.rs, ddl.rs, control_flow.rs and mod.rs).
-- - Common: crates/common-sql/src/ast. Common.Ast has expressions and queries, Common.Statement the
--   statements, and Common.Ddl the names, the data types and the parts of the definitions of tables.
-- - Translate: crates/tsql-parser/src/ast/to_common_sql.rs, with the names of its functions.
--   Translate.Operators and Translate.Expression are `convert_expr` and `convert_select`,
--   Translate.Definition the definitions of tables, and Translate.Statement `to_common_sql`. A
--   `filter_map` is a `keep`, and `?` is the bind of Translate.Fallible.
-- - Emitter: crates/postgresql-emitter/src. Emitter.Reserved and Emitter.Quoting are
--   mappers/identifier.rs, `IdentifierQuoter` with its list of reserved words; Emitter.Postgres.Words
--   and Emitter.Postgres.Expression are mappers/expression.rs and mappers/select_statement.rs, and
--   Emitter.Postgres.Statement is INSERT, UPDATE and DELETE of lib.rs.
-- - SchemaDiff: crates/schema-diff/src. SchemaDiff.Catalog has the types of catalog.rs, diff.rs and
--   warning.rs; SchemaDiff.Diff is diff.rs up to `diff_schema`, over SchemaDiff.Maps, the ordered
--   maps and the sorting of the standard library.
--   `diff_maps` is what the four comparisons of tables, columns, constraints and indices share, and
--   the warnings that they push are a list that each returns.
--
-- What the proofs are about, by file: Token.Keyword.Laws (keywords), Lexer.Cursor.Locate (positions),
-- Lexer.Progress (every reader goes ahead, the stream ends), Lexer.Literals (quoted literals),
-- Lexer.Comments (comments), Parser.Buffer.Queue and Parser.Buffer.Refinement (the buffer as a
-- queue), Parser.Expression.Fuel, Termination and Depth (the expression parser ends),
-- Parser.Expression.Grammar (what it returns), Parser.Statements.Recovery and Loops (what recovery
-- skips, and where the loop over statements does not end), Server.LineIndex.Starts and
-- Server.LineIndex.RoundTrip (line starts), Server.Incremental.Patch (edits),
-- Translate.Kept, Translate.Lost and Translate.Unequal (what the translation keeps and what it does
-- not), Emitter.Quoting.Reading (names read back), Emitter.Postgres.Reader (how PostgreSQL
-- reads an expression, and that it reads what was written), Emitter.Postgres.Carried (values from
-- T-SQL to PostgreSQL), SchemaDiff.Laws (equal catalogs), and SchemaDiff.Swap and SchemaDiff.Names (the
-- tables added and removed).
--
-- Loops and fuel: Base.Loop runs a loop round by round on fuel. A loop of the lexer gets one unit
-- more than there are characters to come, and each round takes a character, so the fuel is enough.
-- `next_token` calls itself behind a skipped comment, at the cost of one unit; `fuel_for` gives
-- one more than there are characters, and the answer `none`, fuel spent, does not occur.
--
-- The expression parser has two fuels. A loop gets one unit more than there are tokens, and each
-- round takes one. A call of `parse_bp` or `parse_subquery_select` into itself costs one unit, and
-- between two calls of `parse_bp` a token is taken, so that two units for each token and one more are
-- enough.
--
-- `parse` takes any fuel. `parse_with_errors` gives one round for each token and each error below the
-- limit of 100, and one more, which is enough where each parser of a statement takes a token for a
-- statement and keeps the errors; no theorem rests on it.
--
-- Parameters: the parser of a single statement is a function, so that it answers always.
-- `str::to_uppercase` of the standard library is a function of texts in the expression parser and in
-- the emitter, which may be any. The words that PostgreSQL reserves are a test of texts, of which the
-- theorems ask what the emitter's list has of them, and Tests.Postgres has those of PostgreSQL 16. The
-- translation is over the `parse` of `f64` with its `to_string`, and over the derived `Debug` of a
-- statement; the integers of 64 bits are in Base.Integers. The schema diff is over any type of
-- expressions with a decidable equality, and over any text for the derived `Debug` of a data type. The
-- Unicode tables behind `char::is_alphabetic` and `char::is_numeric` are a record of two functions (Lexer.Unicode); beyond ASCII they may be anything.
--
-- Not modelled: the messages of errors, which are text for people; a slice of the text by
-- the lexer at an offset inside a character, where the program stops with a panic and the model cuts
-- behind the characters that begin before it (the line index has its panic as `none`); an error of the lexer in the midst of an expression, which ends its parse;
-- the spans of Common SQL, which the translation sets to a placeholder and no emitter reads; and the
-- other parts: the parsers of single statements, the emitters of MySQL and SQLite, DDL in that of
-- PostgreSQL, the emission of migrations, the handlers of the language server, the bindings.
pub mod Base
pub mod Token
pub mod Lexer
pub mod Parser
pub mod Common
pub mod Translate
pub mod Server
pub mod Emitter
pub mod SchemaDiff
mod Tests
