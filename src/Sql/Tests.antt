-- ===== src/Sql/Tests.antt =====
-- `SELECT  'it\'s -- "1"' /* all *//**/` and what follows; then what `minify` makes of hints and of the
-- shortest comments.
use tegg.Prelude.{◌≡◌, refl, true, List, [], ◌∷◌, All}
use tegg.Store.Lines.{trim, trim_start, trim_end}
use tegg.Sql.{minify, loop, round, add_space, may_be_first}
use tegg.Sql.Pieces.{
  Piece, word, minus, literal, space, hash_comment, dash_comment, block_comment, plain, escaped,
  single, IsPiece, sql_of, is_body, spaced,
}
use tegg.Sql.Minify.{minify_lem}

-- `-- a`, the end of the line, `SELECT`, two spaces, `'x\'"  y'`, `/** b */`, a tab, `a-1`, `# c`, the end
-- of the line
abbrev pieces : List Piece
pieces =
    dash_comment 32 (97 ∷ []) 10
    ∷ word 83 (69 ∷ 76 ∷ 69 ∷ 67 ∷ 84 ∷ [])
    ∷ space 32 (32 ∷ [])
    ∷ literal single (plain 120 ∷ escaped 39 ∷ plain 34 ∷ plain 32 ∷ plain 32 ∷ plain 121 ∷ [])
    ∷ block_comment 42 (32 ∷ 98 ∷ 32 ∷ [])
    ∷ space 9 []
    ∷ word 97 []
    ∷ minus 49
    ∷ hash_comment (32 ∷ 99 ∷ []) 10
    ∷ []

pieces-IsPiece : All IsPiece pieces
unfolding is_body
pieces-IsPiece = (
  (refl, (refl, (refl, tt)), refl),
  (
    (refl, (refl, (refl, (refl, (refl, (refl, tt)))))),
    (
      (refl, (refl, tt)),
      (
        (refl, (tt, (refl, (refl, (refl, (refl, tt)))))),
        ((refl, refl), ((refl, tt), ((refl, tt), (refl, (((refl, (refl, tt)), refl), tt))))),
      ),
    ),
  ),
)

minify_lem_example : minify (sql_of pieces) ≡ trim (spaced true pieces)
minify_lem_example = minify_lem pieces pieces-IsPiece

-- `a/**/b` and `/*+ h */a`
minify-shortest : minify (97 ∷ 47 ∷ 42 ∷ 42 ∷ 47 ∷ 98 ∷ []) ≡ 97 ∷ []
unfolding minify loop round add_space may_be_first trim trim_start trim_end
minify-shortest = refl

minify-first_hint : minify (47 ∷ 42 ∷ 43 ∷ 32 ∷ 104 ∷ 32 ∷ 42 ∷ 47 ∷ 97 ∷ []) ≡ 97 ∷ []
unfolding minify loop round add_space may_be_first trim trim_start trim_end
minify-first_hint = refl

minify-later_hint :
    minify (97 ∷ 32 ∷ 47 ∷ 42 ∷ 43 ∷ 104 ∷ 42 ∷ 47 ∷ 32 ∷ 98 ∷ [])
    ≡ 97 ∷ 32 ∷ 47 ∷ 42 ∷ 43 ∷ 104 ∷ 42 ∷ 47 ∷ 32 ∷ 98 ∷ []
unfolding minify loop round add_space may_be_first trim trim_start trim_end
minify-later_hint = refl

-- `--`, the end of the line, `a`, the end of the line, `b`
minify-empty_comment : minify (45 ∷ 45 ∷ 10 ∷ 97 ∷ 10 ∷ 98 ∷ []) ≡ 98 ∷ []
unfolding minify loop round add_space may_be_first trim trim_start trim_end
minify-empty_comment = refl
