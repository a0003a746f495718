-- ===== src/Tests/Buffering.antt =====
-- Instances of the theorems on the token buffer.
use tsqlremaker.Base.{◌≡◌, refl, false, List, [], ◌∷◌, drop, codes, arith, if◌then◌else◌, suc}
use tsqlremaker.Token.Kind.{TokenKind}
use tsqlremaker.Token.Tag.{is_kind, tag}
use tsqlremaker.Token.Position.{start}
use tsqlremaker.Lexer.Cursor.{remaining}
use tsqlremaker.Lexer.Token.{Token}
use tsqlremaker.Lexer.Token
use tsqlremaker.Lexer.Error as LexErrors
use tsqlremaker.Lexer.Stream.{Lexer}
use tsqlremaker.Lexer.Stream
use tsqlremaker.Lexer.Unicode.{Tables}
use tsqlremaker.Parser.Error.{ok}
use tsqlremaker.Parser.Buffer.{TokenBuffer, new, peek, consume, consume_if}
use tsqlremaker.Parser.Buffer.Queue.{ends, yields, Holds, new-Holds}
use tsqlremaker.Parser.Buffer.Refinement.{peek-Holds, consume-Holds, consume_if-Holds}
use tsqlremaker.Parser.Buffer.Lexing.{lexer_next, Collects, new-Holds_collected}

-- A lexer that serves a list of tokens.
abbrev serve : List Token → LexErrors.Result Token × List Token
serve [] = (LexErrors.ok (Token.eof start), [])
serve (t ∷ ts) = (LexErrors.ok t, ts)

abbrev select_token : Token
select_token = Token.new TokenKind.select (codes "SELECT") start

abbrev star_token : Token
star_token = Token.new TokenKind.star (codes "*") start

abbrev from_token : Token
from_token = Token.new TokenKind.from (codes "FROM") start

abbrev name_token : Token
name_token = Token.new TokenKind.ident (codes "t") start

-- More tokens than the ring has slots.
abbrev served : List Token
served = select_token ∷ star_token ∷ from_token ∷ name_token ∷ []

served-Holds : Holds serve (new serve served) served
unfolding is_kind tag Token.new Token.eof
served-Holds =
    new-Holds serve served served
      (yields refl refl (yields refl refl (yields refl refl (yields refl refl (ends refl refl)))))

peek-Holds_example : peek 2 (new serve served) ≡ ok from_token
peek-Holds_example = peek-Holds serve (new serve served) served 2 served-Holds (omega arith)

consume-Holds_example :
    (b : TokenBuffer (List Token)) × (consume serve (new serve served) ≡ (ok select_token, b))
    × Holds serve b (drop 1 served)
consume-Holds_example = consume-Holds serve (new serve served) served served-Holds

consume_if-Holds_example :
    (b : TokenBuffer (List Token)) × (consume_if serve TokenKind.select (new serve served)
      ≡ (ok (is_kind select_token.kind TokenKind.select), b))
    × Holds serve b (if is_kind select_token.kind TokenKind.select then drop 1 served else served)
consume_if-Holds_example =
    consume_if-Holds serve TokenKind.select (new serve served) served served-Holds

abbrev ascii : Tables
ascii = record { alphabetic = λ c. false; numeric = λ c. false }

abbrev query_lexer : Lexer
query_lexer = Stream.new (codes "SELECT * FROM t")

new-Holds_collected_example :
    (ts : List Token) × Holds (lexer_next ascii) (new (lexer_next ascii) query_lexer) ts
    × Collects ascii (suc (remaining query_lexer.cursor)) query_lexer ts
unfolding Stream.new
new-Holds_collected_example = new-Holds_collected ascii query_lexer refl
