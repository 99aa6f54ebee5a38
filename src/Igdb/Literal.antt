-- ===== src/Igdb/Literal.antt =====
-- The escaped term against a reader of string literals.
use toomanyhours_api.Prelude.{
  ℕ, ◌≡◌, refl, Bool, true, false, Option, none, some, [], ◌∷◌, ◌++◌, ◌==◌, if◌then◌else◌, arith,
}
use toomanyhours_api.Text.{Text}
use toomanyhours_api.Igdb.{escape_search_term, is_break, is_control, quote, backslash}

abbrev prepend : ℕ → Option (Text × Text) → Option (Text × Text)
prepend r none = none
prepend r (some (word, rest)) = some (r ∷ word, rest)

-- A reader of a literal, after its opening quote: the text up to the first quote that no backslash
-- stands before, and what follows that quote. The flag says that a backslash was read.
unfoldable pub read_literal : Bool → Text → Option (Text × Text)
read_literal escaped [] = none
read_literal true (r ∷ rs) = prepend r (read_literal false rs)
read_literal false (r ∷ rs) =
    let plain = read_literal false rs in
    let after = read_literal true rs in
    if r == quote then some ([], rs) else if r == backslash then after else prepend r plain

-- What a term means: line breaks and tabs are spaces, and other control characters are nothing.
unfoldable pub printable : Text → Text
printable [] = []
printable (r ∷ rs) =
    let rest = printable rs in
    if is_break r then 0x20 ∷ rest else if is_control r then rest else r ∷ rest

-- Whatever a user sends, a reader of the literal that encloses the escaped term reads the term's
-- printable text, and ends at the literal's own closing quote: no part of the term is read as
-- query syntax.
pub read_literal-escape_search_term :
    (term rest : Text)
    → read_literal false (escape_search_term term ++ quote ∷ rest) ≡ some (printable term, rest)
unfolding read_literal escape_search_term printable is_break is_control
read_literal-escape_search_term [] rest = refl
read_literal-escape_search_term (r ∷ rs) rest =
    ground (arith, read_literal-escape_search_term rs rest)
