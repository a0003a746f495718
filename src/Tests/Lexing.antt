-- ===== src/Tests/Lexing.antt =====
-- Runs of the lexer, and instances of its theorems.
use tsqlremaker.Base.{◌==◌, ◌≡◌, refl, false, [], ◌∷◌, ◌++◌, Text, codes, arith, byte_len, len_utf8}
use tsqlremaker.Token.Kind.{TokenKind}
use tsqlremaker.Token.Position.{Position}
use tsqlremaker.Lexer.Cursor.{char_indices, remaining, first, at_char, rest_of}
use tsqlremaker.Lexer.Cursor as Cursors
use tsqlremaker.Lexer.Cursor.Place.{place}
use tsqlremaker.Lexer.Cursor.Locate.Bump.{new-Placed}
use tsqlremaker.Lexer.Error.{ok}
use tsqlremaker.Lexer.Token.{Token}
use tsqlremaker.Lexer.Token
use tsqlremaker.Lexer.Unicode.{Tables}
use tsqlremaker.Lexer.Read.Quoted.{read_string, read_quoted_ident, read_national_string}
use tsqlremaker.Lexer.Read.Comments.{scan_line, scan_block}
use tsqlremaker.Lexer.Stream.{Lexer, collect, next_token}
use tsqlremaker.Lexer.Stream
use tsqlremaker.Lexer.Progress.Termination.{Steps, next_token-Steps, Ends, collect-Ends}
use tsqlremaker.Lexer.Progress.Fuel.{AllStop, lexer_loops-AllStop}
use tsqlremaker.Lexer.Progress.Peeking.{Peeks, peek_token-next_token}
use tsqlremaker.Lexer.Progress.Positions.{PlacedAnswer, next_token-Placed}
use tsqlremaker.Lexer.Literals.Scan.{escape}
use tsqlremaker.Lexer.Literals.RoundTrip.{
  quote, read_string-quote, read_quoted_ident-quote, read_national_string_cut,
}
use tsqlremaker.Lexer.Comments.Blocks.{opening, closing, close, scan_block-Body}
use tsqlremaker.Lexer.Comments.Blocks
use tsqlremaker.Lexer.Comments.Lines.{nil, crlf, other, scan_line-CrLfOnly}

-- Tables of a Unicode with no letter and no number beyond ASCII.
abbrev ascii : Tables
ascii = record { alphabetic = λ c. false; numeric = λ c. false }

abbrev query : Text
query = codes "SELECT a /* all */ FROM t -- end"

abbrev query_lexer : Lexer
query_lexer = Stream.new query

next_token-Steps_example : Steps query_lexer (next_token ascii query_lexer)
unfolding Stream.new
next_token-Steps_example = next_token-Steps ascii query_lexer refl

collect-Ends_example : Ends (remaining query_lexer.cursor) (collect ascii 40 query_lexer)
unfolding Stream.new Cursors.new remaining char_indices
collect-Ends_example = collect-Ends ascii 40 query_lexer (omega arith) refl

next_token-Placed_example : PlacedAnswer query (next_token ascii query_lexer)
unfolding Stream.new byte_len len_utf8
next_token-Placed_example =
    next_token-Placed ascii query query_lexer (omega arith) refl (new-Placed query)

peek_token-next_token_example : Peeks ascii query_lexer
unfolding Stream.new
peek_token-next_token_example = peek_token-next_token ascii query_lexer refl

lexer_loops-AllStop_example :
    AllStop (λ ch. ch == b'a') b'\'' 1 false false false (Cursors.new query)
lexer_loops-AllStop_example =
    lexer_loops-AllStop (λ ch. ch == b'a') b'\'' 1 false false false (Cursors.new query)

abbrev before : Text
before = codes "x = "

abbrev behind : Text
behind = codes " ;"

abbrev fourth : Position
fourth = record { line = 1; column = 5; offset = 4 }

abbrev word : Text
word = codes "it's"

abbrev string_text : Text
string_text = codes "x = 'it''s' ;"

read_string-quote_example :
    (q : Position) × (read_string string_text
        (place string_text before (quote b'\'' word ++ behind) fourth)
      ≡ (
        ok (Token.new TokenKind.string (quote b'\'' word) fourth),
        place string_text (before ++ quote b'\'' word) behind q,
      ))
unfolding byte_len escape len_utf8
read_string-quote_example =
    read_string-quote string_text before word behind fourth (omega arith) refl refl refl

abbrev ident_text : Text
ident_text = codes "x = \"it's\" ;"

read_quoted_ident-quote_example :
    (q : Position) × (read_quoted_ident ident_text
        (place ident_text before (quote b'"' word ++ behind) fourth)
      ≡ (
        ok (Token.new TokenKind.quoted_ident (quote b'"' word) fourth),
        place ident_text (before ++ quote b'"' word) behind q,
      ))
unfolding byte_len escape len_utf8
read_quoted_ident-quote_example =
    read_quoted_ident-quote ident_text before word behind fourth (omega arith) refl refl refl

abbrev national_text : Text
national_text = codes "x = N'abc'"

read_national_string_cut_example :
    (q : Position) × (read_national_string national_text
        (place national_text before (b'N' ∷ b'\'' ∷ codes "abc'") fourth)
      ≡ (
        ok (Token.new TokenKind.nstring (b'N' ∷ b'\'' ∷ []) fourth),
        place national_text (before ++ b'N' ∷ b'\'' ∷ []) (codes "abc'") q,
      ))
unfolding byte_len len_utf8
read_national_string_cut_example =
    read_national_string_cut national_text before [] (codes "abc'") fourth (omega arith) b'N' refl
      refl refl refl

abbrev comment_body : Text
comment_body = b'a' ∷ b'\r' ∷ b'\n' ∷ b'b' ∷ []

scan_line-CrLfOnly_example :
    (q : Position) × (scan_line
        (place (codes "--" ++ comment_body) (codes "--") comment_body fourth)
      ≡ place (codes "--" ++ comment_body) (codes "--" ++ comment_body) [] q)
scan_line-CrLfOnly_example =
    scan_line-CrLfOnly (codes "--" ++ comment_body) (codes "--") fourth
      (other b'a' refl (crlf (other b'b' refl nil)))

abbrev nested : Text
nested = codes " /*b*/ */"

scan_block-Body_example :
    (q : Position) × (scan_block
        (place (codes "/*" ++ nested ++ codes "GO") (codes "/*") (nested ++ codes "GO") fourth)
      ≡ (0, place (codes "/*" ++ nested ++ codes "GO") (codes "/*" ++ nested) (codes "GO") q))
scan_block-Body_example =
    scan_block-Body (codes "/*" ++ nested ++ codes "GO") (codes "/*") (codes "GO") fourth (
      Blocks.other b' ' refl refl refl (
        opening
          (Blocks.other b'b' refl refl refl (closing (Blocks.other b' ' refl refl refl close)))))
