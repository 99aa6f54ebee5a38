-- ===== src/Igdb.antt =====
-- internal/igdb/query.go: a user's words made safe inside a string literal of a query.
pub mod Literal
pub mod Wire
pub mod Kind
pub mod Throttle
pub mod Client
pub mod Games
pub mod Rules
use toomanyhours_api.Prelude.{ℕ, Bool, ◌||◌, List, [], ◌∷◌, ltb, leb, ◌==◌, ◌&&◌, if◌then◌else◌}
use toomanyhours_api.Text.{Text}

abbrev pub quote : ℕ
quote = b'"'

abbrev pub backslash : ℕ
backslash = 0x5c

-- `unicode.IsControl`: the category Cc.
unfoldable pub is_control : ℕ → Bool
is_control r = ltb r 0x20 || (leb 0x7f r && ltb r 0xa0)

-- A line feed, a carriage return or a tab.
unfoldable pub is_break : ℕ → Bool
is_break r = r == 0x0a || r == 0x0d || r == 0x09

-- `escapeSearchTerm`.
unfoldable pub escape_search_term : Text → Text
unfolding is_control is_break
escape_search_term [] = []
escape_search_term (r ∷ rs) =
    let rest = escape_search_term rs in
    if r == backslash || r == quote
    then backslash ∷ r ∷ rest
    else if is_break r
    then 0x20 ∷ rest
    else if is_control r
    then rest
    else r ∷ rest
