-- ===== src/Emitter/Reserved.antt =====
-- The reserved words of PostgreSQL, as the emitter has them
-- (crates/postgresql-emitter/src/mappers/identifier.rs).
use tsqlremaker.Base.{List, [], ◌∷◌, Text, codes}

-- `IdentifierQuoter::RESERVED_WORDS`
unfoldable pub reserved_words : List Text
reserved_words =
    codes "ALL"
    ∷ codes "ANALYSE"
    ∷ codes "ANALYZE"
    ∷ codes "AND"
    ∷ codes "ANY"
    ∷ codes "ARRAY"
    ∷ codes "AS"
    ∷ codes "ASC"
    ∷ codes "ASYMMETRIC"
    ∷ codes "AUTHORIZATION"
    ∷ codes "BETWEEN"
    ∷ codes "BINARY"
    ∷ codes "BOTH"
    ∷ codes "CASE"
    ∷ codes "CAST"
    ∷ codes "CHECK"
    ∷ codes "COLLATE"
    ∷ codes "COLLATION"
    ∷ codes "COLUMN"
    ∷ codes "CONCURRENTLY"
    ∷ codes "CONSTRAINT"
    ∷ codes "CREATE"
    ∷ codes "CROSS"
    ∷ codes "CURRENT_CATALOG"
    ∷ codes "CURRENT_DATE"
    ∷ codes "CURRENT_ROLE"
    ∷ codes "CURRENT_SCHEMA"
    ∷ codes "CURRENT_TIME"
    ∷ codes "CURRENT_TIMESTAMP"
    ∷ codes "CURRENT_USER"
    ∷ codes "DEFAULT"
    ∷ codes "DEFERRABLE"
    ∷ codes "DESC"
    ∷ codes "DISTINCT"
    ∷ codes "DO"
    ∷ codes "ELSE"
    ∷ codes "END"
    ∷ codes "EXCEPT"
    ∷ codes "EXCLUDE"
    ∷ codes "EXISTS"
    ∷ codes "FALSE"
    ∷ codes "FETCH"
    ∷ codes "FILTER"
    ∷ codes "FIRST"
    ∷ codes "FOR"
    ∷ codes "FOREIGN"
    ∷ codes "FROM"
    ∷ codes "FULL"
    ∷ codes "GRANT"
    ∷ codes "GROUP"
    ∷ codes "HAVING"
    ∷ codes "IN"
    ∷ codes "INITIALLY"
    ∷ codes "INNER"
    ∷ codes "INSERT"
    ∷ codes "INTERSECT"
    ∷ codes "INTO"
    ∷ codes "JOIN"
    ∷ codes "LATERAL"
    ∷ codes "LEADING"
    ∷ codes "LEFT"
    ∷ codes "LIKE"
    ∷ codes "LIMIT"
    ∷ codes "LOCAL"
    ∷ codes "LOCALTIME"
    ∷ codes "LOCALTIMESTAMP"
    ∷ codes "NATURAL"
    ∷ codes "NOT"
    ∷ codes "NULL"
    ∷ codes "OFFSET"
    ∷ codes "ON"
    ∷ codes "ONLY"
    ∷ codes "OR"
    ∷ codes "ORDER"
    ∷ codes "OUTER"
    ∷ codes "OVERLAPS"
    ∷ codes "PLACING"
    ∷ codes "PRIMARY"
    ∷ codes "REFERENCES"
    ∷ codes "RETURNING"
    ∷ codes "RIGHT"
    ∷ codes "ROW"
    ∷ codes "SELECT"
    ∷ codes "SESSION_USER"
    ∷ codes "SIMILAR"
    ∷ codes "SOME"
    ∷ codes "SYMMETRIC"
    ∷ codes "TABLE"
    ∷ codes "TABLESAMPLE"
    ∷ codes "THEN"
    ∷ codes "TO"
    ∷ codes "TRAILING"
    ∷ codes "TRUE"
    ∷ codes "UNION"
    ∷ codes "UNIQUE"
    ∷ codes "USER"
    ∷ codes "USING"
    ∷ codes "VARIADIC"
    ∷ codes "VERBOSE"
    ∷ codes "WHEN"
    ∷ codes "WHERE"
    ∷ codes "WINDOW"
    ∷ codes "WITH"
    ∷ codes "ACL"
    ∷ codes "ADMIN"
    ∷ codes "AGGREGATE"
    ∷ codes "ALSO"
    ∷ codes "ALTER"
    ∷ codes "ALWAYS"
    ∷ codes "ASSERTION"
    ∷ codes "ASSIGNMENT"
    ∷ codes "AT"
    ∷ codes "ATTRIBUTE"
    ∷ codes "BACKWARD"
    ∷ codes "BEFORE"
    ∷ codes "BEGIN"
    ∷ codes "BY"
    ∷ codes "CACHE"
    ∷ codes "CALLED"
    ∷ codes "CASCADE"
    ∷ codes "CASCADED"
    ∷ codes "CATALOG"
    ∷ codes "CHAIN"
    ∷ codes "CHARACTERISTICS"
    ∷ codes "COMMENT"
    ∷ codes "COMMENTS"
    ∷ codes "COMMIT"
    ∷ codes "COMMITTED"
    ∷ codes "CONFIGURATION"
    ∷ codes "CONNECTION"
    ∷ codes "CONSTRAINTS"
    ∷ codes "CONTENT"
    ∷ codes "CONTINUE"
    ∷ codes "CONVERSION"
    ∷ codes "COPY"
    ∷ codes "COST"
    ∷ codes "CSV"
    ∷ codes "CURSOR"
    ∷ codes "CYCLE"
    ∷ codes "DATA"
    ∷ codes "DATABASE"
    ∷ codes "DAY"
    ∷ codes "DEALLOCATE"
    ∷ codes "DECLARE"
    ∷ codes "DEFAULTS"
    ∷ codes "DEFERRED"
    ∷ codes "DEFINER"
    ∷ codes "DELETE"
    ∷ codes "DELIMITER"
    ∷ codes "DELIMITERS"
    ∷ codes "DICTIONARY"
    ∷ codes "DISABLE"
    ∷ codes "DISCARD"
    ∷ codes "DOCUMENT"
    ∷ codes "DOMAIN"
    ∷ codes "DOUBLE"
    ∷ codes "DROP"
    ∷ codes "EACH"
    ∷ codes "ENABLE"
    ∷ codes "ENCODING"
    ∷ codes "ENCRYPTED"
    ∷ codes "ENUM"
    ∷ codes "ESCAPE"
    ∷ codes "EVENT"
    ∷ codes "EXCLUDE"
    ∷ codes "EXCLUDING"
    ∷ codes "EXCLUSIVE"
    ∷ codes "EXECUTE"
    ∷ codes "EXPLAIN"
    ∷ codes "EXTENSION"
    ∷ codes "EXTERNAL"
    ∷ codes "FAMILY"
    ∷ codes "FIRST"
    ∷ codes "FOLLOWING"
    ∷ codes "FORCE"
    ∷ codes "FORWARD"
    ∷ codes "FUNCTION"
    ∷ codes "FUNCTIONS"
    ∷ codes "GLOBAL"
    ∷ codes "GRANTED"
    ∷ codes "GREATEST"
    ∷ codes "GROUPING"
    ∷ codes "HANDLER"
    ∷ codes "HEADER"
    ∷ codes "HOLD"
    ∷ codes "HOUR"
    ∷ codes "IDENTITY"
    ∷ codes "IF"
    ∷ codes "IMMEDIATE"
    ∷ codes "IMMUTABLE"
    ∷ codes "IMPLICIT"
    ∷ codes "IMPORT"
    ∷ codes "INCLUSIVE"
    ∷ codes "INCREMENT"
    ∷ codes "INDEX"
    ∷ codes "INDEXES"
    ∷ codes "INHERIT"
    ∷ codes "INHERITS"
    ∷ codes "INLINE"
    ∷ codes "INSENSITIVE"
    ∷ codes "INSTEAD"
    ∷ codes "INVOKER"
    ∷ codes "ISOLATION"
    ∷ codes "KEY"
    ∷ codes "LABEL"
    ∷ codes "LANGUAGE"
    ∷ codes "LARGE"
    ∷ codes "LAST"
    ∷ codes "LEAKPROOF"
    ∷ codes "LEAST"
    ∷ codes "LEVEL"
    ∷ codes "LISTEN"
    ∷ codes "LOAD"
    ∷ codes "LOCAL"
    ∷ codes "LOCATION"
    ∷ codes "LOCK"
    ∷ codes "LOCKED"
    ∷ codes "LOGGED"
    ∷ codes "MAPPING"
    ∷ codes "MATCH"
    ∷ codes "MATERIALIZED"
    ∷ codes "MAXVALUE"
    ∷ codes "MINUTE"
    ∷ codes "MINVALUE"
    ∷ codes "MODE"
    ∷ codes "MONTH"
    ∷ codes "MOVE"
    ∷ codes "NAME"
    ∷ codes "NAMES"
    ∷ codes "NATIONAL"
    ∷ codes "NATURAL"
    ∷ codes "NCHAR"
    ∷ codes "NEXT"
    ∷ codes "NO"
    ∷ codes "NONE"
    ∷ codes "NOSUPERUSER"
    ∷ codes "NOTHING"
    ∷ codes "NOTIFY"
    ∷ codes "NOWAIT"
    ∷ codes "NULLIF"
    ∷ codes "NULLS"
    ∷ codes "NUMERIC"
    ∷ codes "OBJECT"
    ∷ codes "OF"
    ∷ codes "OFF"
    ∷ codes "OIDS"
    ∷ codes "OPERATOR"
    ∷ codes "OPTION"
    ∷ codes "OPTIONS"
    ∷ codes "ORDINALITY"
    ∷ codes "OTHERS"
    ∷ codes "OUT"
    ∷ codes "OVER"
    ∷ codes "OWNER"
    ∷ codes "PARTIAL"
    ∷ codes "PARTITION"
    ∷ codes "PASSING"
    ∷ codes "PLANNER"
    ∷ codes "POLICY"
    ∷ codes "POSITION"
    ∷ codes "PRECEDING"
    ∷ codes "PRECISION"
    ∷ codes "PREPARE"
    ∷ codes "PREPARED"
    ∷ codes "PRESERVE"
    ∷ codes "PRIOR"
    ∷ codes "PRIVILEGES"
    ∷ codes "PROCEDURAL"
    ∷ codes "PROCEDURE"
    ∷ codes "PROGRAM"
    ∷ codes "QUOTE"
    ∷ codes "RANGE"
    ∷ codes "READ"
    ∷ codes "REASSIGN"
    ∷ codes "RECHECK"
    ∷ codes "RECURSIVE"
    ∷ codes "REF"
    ∷ codes "REFERENCES"
    ∷ codes "REFRESH"
    ∷ codes "REINDEX"
    ∷ codes "RELATIVE"
    ∷ codes "RELEASE"
    ∷ codes "RENAME"
    ∷ codes "REPEATABLE"
    ∷ codes "REPLACE"
    ∷ codes "REPLICA"
    ∷ codes "RESET"
    ∷ codes "RESTART"
    ∷ codes "RESTRICT"
    ∷ codes "RETURNS"
    ∷ codes "REVOKE"
    ∷ codes "ROLE"
    ∷ codes "ROLLBACK"
    ∷ codes "ROLLUP"
    ∷ codes "ROUTINE"
    ∷ codes "ROUTINES"
    ∷ codes "RULE"
    ∷ codes "SAVEPOINT"
    ∷ codes "SCHEMA"
    ∷ codes "SCHEMAS"
    ∷ codes "SCROLL"
    ∷ codes "SEARCH"
    ∷ codes "SECOND"
    ∷ codes "SECURITY"
    ∷ codes "SEQUENCE"
    ∷ codes "SEQUENCES"
    ∷ codes "SERIALIZABLE"
    ∷ codes "SERVER"
    ∷ codes "SESSION"
    ∷ codes "SET"
    ∷ codes "SETOF"
    ∷ codes "SHARE"
    ∷ codes "SHOW"
    ∷ codes "SKIP"
    ∷ codes "SNAPSHOT"
    ∷ codes "STABLE"
    ∷ codes "STANDALONE"
    ∷ codes "START"
    ∷ codes "STATEMENT"
    ∷ codes "STATISTICS"
    ∷ codes "STDIN"
    ∷ codes "STDOUT"
    ∷ codes "STORAGE"
    ∷ codes "STRICT"
    ∷ codes "STRIP"
    ∷ codes "SUBSCRIPTION"
    ∷ codes "SUPPORT"
    ∷ codes "SYSID"
    ∷ codes "SYSTEM"
    ∷ codes "TABLES"
    ∷ codes "TABLESPACE"
    ∷ codes "TEMP"
    ∷ codes "TEMPLATE"
    ∷ codes "TEMPORARY"
    ∷ codes "TRANSACTION"
    ∷ codes "TREAT"
    ∷ codes "TRIGGER"
    ∷ codes "TRUNCATE"
    ∷ codes "TRUSTED"
    ∷ codes "TYPE"
    ∷ codes "TYPES"
    ∷ codes "UNBOUNDED"
    ∷ codes "UNCOMMITTED"
    ∷ codes "UNENCRYPTED"
    ∷ codes "UNKNOWN"
    ∷ codes "UNLISTEN"
    ∷ codes "UNLOGGED"
    ∷ codes "UNTIL"
    ∷ codes "UPDATE"
    ∷ codes "VACUUM"
    ∷ codes "VALID"
    ∷ codes "VALIDATE"
    ∷ codes "VALIDATOR"
    ∷ codes "VALUE"
    ∷ codes "VARYING"
    ∷ codes "VERSION"
    ∷ codes "VIEW"
    ∷ codes "VIEWS"
    ∷ codes "VOLATILE"
    ∷ codes "WHITESPACE"
    ∷ codes "WITHIN"
    ∷ codes "WITHOUT"
    ∷ codes "WORK"
    ∷ codes "WRAPPER"
    ∷ codes "WRITE"
    ∷ codes "XMLATTRIBUTES"
    ∷ codes "XMLCONCAT"
    ∷ codes "XMLELEMENT"
    ∷ codes "XMLEXISTS"
    ∷ codes "XMLFOREST"
    ∷ codes "XMLNAMESPACES"
    ∷ codes "XMLPARSE"
    ∷ codes "XMLPI"
    ∷ codes "XMLROOT"
    ∷ codes "XMLSERIALIZE"
    ∷ codes "XMLTABLE"
    ∷ codes "ZONE"
    ∷ []
