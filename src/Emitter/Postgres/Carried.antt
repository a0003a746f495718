-- ===== src/Emitter/Postgres/Carried.antt =====
-- From T-SQL to the text that PostgreSQL reads: the translation of an expression
-- (crates/tsql-parser/src/ast/to_common_sql.rs) and its text
-- (crates/postgresql-emitter/src/mappers/expression.rs).
use tsqlremaker.Parser.Ast as Tsql
use tsqlremaker.Common.Ast.{Expression}
use tsqlremaker.Translate.Meaning.{Meaning}
use tsqlremaker.Emitter.Postgres.Reader.Clear.{Clear}
