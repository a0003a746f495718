-- ===== src/Tests.antt =====
-- Runs of the model and instances of the theorems.
mod Keywords
mod Lexing
mod Buffering
mod Lines
mod Editing
mod Postgres
mod Emitting
mod Diffing
mod Expressions
mod Statements
mod Translating
