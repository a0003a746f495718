-- ===== src/Tests/Postgres.antt =====
-- The words that PostgreSQL 16 reserves, at least as the names of columns, from the table of key words
-- in its documentation, and what the emitter's list has of them.
use tsqlremaker.Base.{
  ◌-◌, ◌≡◌, refl, Bool, true, false, ◌&&◌, ◌||◌, Bool-cases, inl, inr, List, [], ◌∷◌, map,
  if◌then◌else◌, Text, codes, text_eq, eq_of_text_eq, arith,
}
use tsqlremaker.Emitter.Reserved.{reserved_words}
use tsqlremaker.Emitter.Quoting.{is_ascii_lowercase, contains}
use tsqlremaker.Emitter.Quoting.Bytes.{false-true}
use tsqlremaker.Emitter.Quoting.Reading.{missed_words}

abbrev pub postgres_words : List Text
postgres_words =
    codes "all"
    ∷ codes "analyse"
    ∷ codes "analyze"
    ∷ codes "and"
    ∷ codes "any"
    ∷ codes "array"
    ∷ codes "as"
    ∷ codes "asc"
    ∷ codes "asymmetric"
    ∷ codes "authorization"
    ∷ codes "binary"
    ∷ codes "both"
    ∷ codes "case"
    ∷ codes "cast"
    ∷ codes "check"
    ∷ codes "collate"
    ∷ codes "collation"
    ∷ codes "column"
    ∷ codes "concurrently"
    ∷ codes "constraint"
    ∷ codes "create"
    ∷ codes "cross"
    ∷ codes "current_catalog"
    ∷ codes "current_date"
    ∷ codes "current_role"
    ∷ codes "current_schema"
    ∷ codes "current_time"
    ∷ codes "current_timestamp"
    ∷ codes "current_user"
    ∷ codes "default"
    ∷ codes "deferrable"
    ∷ codes "desc"
    ∷ codes "distinct"
    ∷ codes "do"
    ∷ codes "else"
    ∷ codes "end"
    ∷ codes "except"
    ∷ codes "false"
    ∷ codes "fetch"
    ∷ codes "for"
    ∷ codes "foreign"
    ∷ codes "freeze"
    ∷ codes "from"
    ∷ codes "full"
    ∷ codes "grant"
    ∷ codes "group"
    ∷ codes "having"
    ∷ codes "ilike"
    ∷ codes "in"
    ∷ codes "initially"
    ∷ codes "inner"
    ∷ codes "intersect"
    ∷ codes "into"
    ∷ codes "is"
    ∷ codes "isnull"
    ∷ codes "join"
    ∷ codes "lateral"
    ∷ codes "leading"
    ∷ codes "left"
    ∷ codes "like"
    ∷ codes "limit"
    ∷ codes "localtime"
    ∷ codes "localtimestamp"
    ∷ codes "natural"
    ∷ codes "not"
    ∷ codes "notnull"
    ∷ codes "null"
    ∷ codes "offset"
    ∷ codes "on"
    ∷ codes "only"
    ∷ codes "or"
    ∷ codes "order"
    ∷ codes "outer"
    ∷ codes "overlaps"
    ∷ codes "placing"
    ∷ codes "primary"
    ∷ codes "references"
    ∷ codes "returning"
    ∷ codes "right"
    ∷ codes "select"
    ∷ codes "session_user"
    ∷ codes "similar"
    ∷ codes "some"
    ∷ codes "symmetric"
    ∷ codes "system_user"
    ∷ codes "table"
    ∷ codes "tablesample"
    ∷ codes "then"
    ∷ codes "to"
    ∷ codes "trailing"
    ∷ codes "true"
    ∷ codes "union"
    ∷ codes "unique"
    ∷ codes "user"
    ∷ codes "using"
    ∷ codes "variadic"
    ∷ codes "verbose"
    ∷ codes "when"
    ∷ codes "where"
    ∷ codes "window"
    ∷ codes "with"
    ∷ []

abbrev pub is_reserved : Text → Bool
is_reserved s = contains postgres_words s

-- `str::to_uppercase` on ASCII
abbrev pub upper : Text → Text
upper s = map (λ c. if is_ascii_lowercase c then c - 0x20 else c) s

covered : Text → Bool
covered w = contains missed_words w || contains reserved_words (upper w)

all_covered : List Text → Bool
all_covered [] = true
all_covered (w ∷ ws) = covered w && all_covered ws

contains-all_covered :
    (ws : List Text) (s : Text) → all_covered ws ≡ true → contains ws s ≡ true → covered s ≡ true
unfolding all_covered contains
contains-all_covered [] s h k = absurd (false-true k)
contains-all_covered (w ∷ ws) s h k =
    let first : covered w ≡ true = ground arith in
    let others : all_covered ws ≡ true = ground arith in
    elim (Bool-cases (text_eq w s)) [
      | inl same ↦ rw⁻¹ (eq_of_text_eq w s same) first
      | inr other ↦ contains-all_covered ws s others (rw other at k)
    ]

words_covered : all_covered postgres_words ≡ true
unfolding all_covered covered contains reserved_words text_eq is_ascii_lowercase
words_covered = refl

pub is_reserved-listed :
    (s : Text)
    → is_reserved s ≡ true
    → contains missed_words s ≡ false
    → contains reserved_words (upper s) ≡ true
unfolding covered
is_reserved-listed s h k =
    let c : covered s ≡ true = contains-all_covered postgres_words s words_covered h in rw k at c
