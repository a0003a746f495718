-- ===== src/Lexer/Token.antt =====
-- Tokens (crates/tsql-lexer/src/lexer.rs).
use tsqlremaker.Base.{◌+◌, [], u32, Text, byte_len}
use tsqlremaker.Token.Kind.{TokenKind}
use tsqlremaker.Token.Position.{Position, Span}

pub record Token : Type 0 where
  pub kind : TokenKind
  pub text : Text
  pub span : Span
  pub position : Position

-- `Token::new`
unfoldable pub new : TokenKind → Text → Position → Token
new kind text position =
    let len = u32 (byte_len text) in
    record {
      kind = kind;
      text = text;
      span = record { start = position.offset; end = u32 (position.offset + len) };
      position = position;
    }

-- `Token::eof`
unfoldable pub eof : Position → Token
eof position = record {
  kind = TokenKind.eof;
  text = [];
  span = record { start = position.offset; end = position.offset };
  position = position;
}
