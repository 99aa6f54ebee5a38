-- ===== src/Tests/Queries.antt =====
-- internal/igdb/query.go at a concrete input.
use toomanyhours_api.Prelude.{◌≡◌, some, ◌∷◌, ◌++◌, Bool}
use toomanyhours_api.Text.{codes}
use toomanyhours_api.Igdb.{escape_search_term, quote}
use toomanyhours_api.Igdb.Literal.{read_literal, printable, read_literal-escape_search_term}

read_literal-escape_search_term_example :
    read_literal Bool.false
      (escape_search_term (codes "a\"; fields *;") ++ quote ∷ codes "; limit 20;")
    ≡ some (printable (codes "a\"; fields *;"), codes "; limit 20;")
read_literal-escape_search_term_example =
    read_literal-escape_search_term (codes "a\"; fields *;") (codes "; limit 20;")
