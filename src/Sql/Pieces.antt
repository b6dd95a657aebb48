-- ===== src/Sql/Pieces.antt =====
-- SQL texts by their pieces: words, literals in quotes, spaces and comments.
use tegg.Prelude.{
  ℕ, ◌≡◌, Bool, true, false, List, [], ◌∷◌, ◌++◌, ◌==◌, nat_key, if◌then◌else◌, ◌&&◌, ◌||◌, not,
  All,
}
use tegg.Store.Lines.{Text}
use tegg.Sql.{is_white_char, is_comment_char, is_line_end}

-- A character of a word.
abbrev pub is_word_char : ℕ → Bool
is_word_char c = not (is_white_char c) && not (c == 39) && not (c == 34) && not (is_comment_char c)

-- What stands in a literal: a character, or one behind a backslash.
pub data Item : Type 0 where
  plain : ℕ → Item
  escaped : ℕ → Item

pub data Quote : Type 0 where
  single : Quote
  double : Quote

abbrev pub mark : Quote → ℕ
mark single = 39
mark double = 34

pub data Piece : Type 0 where
  word : (first : ℕ) (rest : Text) → Piece
  -- A minus that a character of a word follows.
  minus : (next : ℕ) → Piece
  literal : Quote → List Item → Piece
  space : (first : ℕ) (rest : Text) → Piece
  hash_comment : (body : Text) (end_ : ℕ) → Piece
  dash_comment : (first : ℕ) (body : Text) (end_ : ℕ) → Piece
  block_comment : (first : ℕ) (body : Text) → Piece

abbrev pub IsItem : Quote → Item → Type 0
IsItem quote (plain c) = (c == mark quote || c == 92) ≡ false
IsItem quote (escaped c) = Unit

-- No asterisk of the body stands before a slash, an asterisk or the end; the flag tells of an
-- asterisk just before.
unfoldable pub is_body : Bool → Text → Bool
is_body star [] = not star
is_body false (c ∷ cs) =
    let then_star = is_body true cs in
    let then_other = is_body false cs in if c == 42 then then_star else then_other
is_body true (c ∷ cs) = let rest = is_body false cs in if c == 42 || c == 47 then false else rest

abbrev pub IsPiece : Piece → Type 0
IsPiece (word first rest) = All (λ c. is_word_char c ≡ true) (first ∷ rest)
IsPiece (minus next) = is_word_char next ≡ true
IsPiece (literal quote items) = All (IsItem quote) items
IsPiece (space first rest) = All (λ c. is_white_char c ≡ true) (first ∷ rest)
IsPiece (hash_comment body end_) = All (λ c. is_line_end c ≡ false) body × (is_line_end end_ ≡ true)
-- The characters behind the dashes: no hint, and not the end of the line at once.
IsPiece (dash_comment first body end_) =
    ((first == 43) ≡ false)
    × All (λ c. is_line_end c ≡ false) (first ∷ body)
    × (is_line_end end_ ≡ true)
-- No hint, and a body of one character or more.
IsPiece (block_comment first body) =
    ((first == 43 || first == 47) ≡ false) × (is_body false body ≡ true)

abbrev pub item_text : Item → Text
item_text (plain c) = c ∷ []
item_text (escaped c) = 92 ∷ c ∷ []

abbrev pub items_text : List Item → Text
items_text [] = []
items_text (item ∷ items) = item_text item ++ items_text items

abbrev pub text_of : Piece → Text
text_of (word first rest) = first ∷ rest
text_of (minus next) = 45 ∷ next ∷ []
text_of (literal quote items) = mark quote ∷ items_text items ++ mark quote ∷ []
text_of (space first rest) = first ∷ rest
text_of (hash_comment body end_) = 35 ∷ body ++ end_ ∷ []
text_of (dash_comment first body end_) = 45 ∷ 45 ∷ first ∷ body ++ end_ ∷ []
text_of (block_comment first body) = 47 ∷ 42 ∷ first ∷ body ++ 42 ∷ 47 ∷ []

-- The SQL of the pieces, one behind the other.
abbrev pub sql_of : List Piece → Text
sql_of [] = []
sql_of (p ∷ ps) = text_of p ++ sql_of ps

-- Spaces and comments.
abbrev pub is_gap : Piece → Bool
is_gap (word first rest) = false
is_gap (minus next) = false
is_gap (literal quote items) = false
is_gap (space first rest) = true
is_gap (hash_comment body end_) = true
is_gap (dash_comment first body end_) = true
is_gap (block_comment first body) = true

-- The pieces that are no gaps, as they are, and one space for the gaps between two of them; the flag
-- tells that no space is wanted, at the start and behind a gap.
abbrev pub spaced : Bool → List Piece → Text
spaced gap [] = []
spaced gap (p ∷ ps) =
    if is_gap p
    then (if gap then spaced true ps else 32 ∷ spaced true ps)
    else text_of p ++ spaced false ps
