-- ===== src/Tests/Keywords.antt =====
-- Instances of the theorems on keywords.
use tsqlremaker.Base.{◌≡◌, ◌≢◌, ◌↔◌, refl, codes, to_ascii_lowercase}
use tsqlremaker.Token.Kind.{TokenKind}
use tsqlremaker.Token.Keyword.{keywords, from_ident}
use tsqlremaker.Token.Keyword.Laws.{lower, Entry, from_ident-lower, from_ident_iff}

from_ident-lower_example : from_ident (codes "SELECT") ≡ from_ident (codes "Select")
unfolding to_ascii_lowercase
from_ident-lower_example = from_ident-lower (codes "SELECT") (codes "Select") refl

from_ident_iff_example :
    ((from_ident (codes "Select") ≡ TokenKind.select) × (TokenKind.select ≢ TokenKind.ident))
    ↔ Entry keywords (lower (codes "Select")) TokenKind.select
from_ident_iff_example = from_ident_iff (codes "Select") TokenKind.select
