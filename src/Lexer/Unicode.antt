-- ===== src/Lexer/Unicode.antt =====
-- The character classes of Rust's `char` that are tables of Unicode beyond ASCII.
use tsqlremaker.Base.{ℕ, Bool, ◌&&◌, ◌||◌, leb, is_ascii_alphabetic, is_ascii_digit}

-- The tables of the standard library, of which nothing is assumed.
pub record Tables : Type 0 where
  pub alphabetic : ℕ → Bool
  pub numeric : ℕ → Bool

-- `char::is_alphabetic` and `char::is_alphanumeric`
unfoldable pub is_alphabetic : Tables → ℕ → Bool
is_alphabetic u c = is_ascii_alphabetic c || (leb 0x80 c && u.alphabetic c)

unfoldable pub is_alphanumeric : Tables → ℕ → Bool
unfolding is_alphabetic
is_alphanumeric u c = is_alphabetic u c || is_ascii_digit c || (leb 0x80 c && u.numeric c)
