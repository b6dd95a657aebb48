-- ===== src/Sql.antt =====
-- core/dal-runtime/src/SqlUtil.ts: `minify`, a state machine over the characters of an SQL text, which
-- are given by their codes.
pub mod Pieces
pub mod Rounds
pub mod Comments
pub mod Minify
pub mod Tests
use tegg.Prelude.{
  ℕ, Bool, true, false, List, [], ◌∷◌, ◌++◌, Option, none, some, ◌==◌, nat_key, if◌then◌else◌, ◌&&◌,
  ◌||◌, not, element,
}
use tegg.Store.Lines.{Text, is_empty, trim}

-- The source's names of the states, in lower case.
pub data State : Type 0 where
  start : State
  content : State
  in_space : State
  single_quote : State
  double_quote : State
  backslash_after_single_quote : State
  backslash_after_double_quote : State
  quote_done : State
  may_be_first_comment : State
  may_be_first_block_comment : State
  in_comment_wait_hint : State
  in_block_comment_wait_hint : State
  in_comment : State
  in_comment_hint : State
  in_block_comment : State
  in_block_comment_hint : State
  may_be_last_block_comment : State
  may_be_last_block_comment_hint : State

abbrev pub is_white_char : ℕ → Bool
is_white_char ch = ch == 32 || ch == 10 || ch == 13 || ch == 9

-- `COMMENT_CHARS.includes(ch)`
abbrev pub is_comment_char : ℕ → Bool
is_comment_char ch = ch == 45 || ch == 35 || ch == 47

-- `ret && !isWhiteChar(ret[ret.length - 1])`
abbrev pub ends_filled : Text → Bool
ends_filled [] = false
ends_filled (c ∷ []) = not (is_white_char c)
ends_filled (c ∷ d ∷ cs) = ends_filled (d ∷ cs)

-- A space where the text does not end in one.
unfoldable pub add_space : Text → Text
add_space ret = if ends_filled ret then ret ++ 32 ∷ [] else ret

abbrev pub is_line_end : ℕ → Bool
is_line_end ch = ch == 10 || ch == 13

-- The cases that `QUOTE_DONE`, `CONTENT` and `IN_SPACE` share.
abbrev pub opens : ℕ → State
opens ch =
    if ch == 39
    then single_quote
    else (if ch == 34
        then double_quote
        else (if ch == 45
            then may_be_first_comment
            else (if ch == 35
                then in_comment
                else (if ch == 47 then may_be_first_block_comment else content))))

abbrev pub unless_comment_char : ℕ → Text → Text
unless_comment_char ch ret = if is_comment_char ch then ret else ret ++ ch ∷ []

-- The two states of a first character of a comment: the character, its successor in a comment, the
-- state behind both.
unfoldable pub may_be_first : (first verifier : ℕ) → State → ℕ → Text → State × Text
may_be_first first verifier next ch ret = if ch == verifier then (next, ret) else (
  if ch == 34 then double_quote else (if ch == 39 then single_quote else content),
  ret ++ first ∷ ch ∷ [],
)

-- The states of a literal in quotes.
unfoldable pub in_quote : (quote : ℕ) → (here escaped : State) → ℕ → Text → State × Text
in_quote quote here escaped ch ret =
    (if ch == 92 then escaped else (if ch == quote then quote_done else here), ret ++ ch ∷ [])

abbrev pub is_white_next : Option ℕ → Bool
is_white_next none = false
is_white_next (some c) = is_white_char c

abbrev pub char_next : Option ℕ → Text
char_next none = []
char_next (some c) = c ∷ []

abbrev pub is_next : ℕ → Option ℕ → Bool
is_next c none = false
is_next c (some d) = d == c

-- One round of the loop, with `sql[i + 1]`; whether the next character is passed over, last.
unfoldable pub round : State → Option ℕ → ℕ → Text → (State × Text) × Bool
unfolding may_be_first in_quote add_space
round may_be_first_comment next ch ret = (may_be_first 45 45 in_comment_wait_hint ch ret, false)
round may_be_first_block_comment next ch ret =
    (may_be_first 47 42 in_block_comment_wait_hint ch ret, false)
round in_comment_wait_hint next ch ret =
    (if ch == 43 then (in_comment_hint, ret ++ 45 ∷ 45 ∷ 43 ∷ []) else (in_comment, ret), false)
round in_block_comment_wait_hint next ch ret = (
  if ch == 43 then (in_block_comment_hint, ret ++ 47 ∷ 42 ∷ 43 ∷ []) else (in_block_comment, ret),
  false,
)
round may_be_last_block_comment next ch ret =
    (if ch == 47 then (in_space, add_space ret) else (in_block_comment, ret), false)
round may_be_last_block_comment_hint next ch ret = (
  if ch == 47
      then (in_space, (ret ++ ch ∷ []) ++ (if is_white_next next then char_next next else []))
      else (in_block_comment_hint, ret ++ ch ∷ []),
  false,
)
round in_comment next ch ret =
    (if is_line_end ch then (in_space, add_space ret) else (in_comment, ret), false)
round in_comment_hint next ch ret =
    ((if is_line_end ch then in_space else in_comment_hint, ret ++ ch ∷ []), false)
round in_block_comment next ch ret =
    ((if ch == 42 then may_be_last_block_comment else in_block_comment, ret), false)
round in_block_comment_hint next ch ret = (
  (if ch == 42 then may_be_last_block_comment_hint else in_block_comment_hint, ret ++ ch ∷ []),
  false,
)
round start next ch ret =
    if is_white_char ch
    then ((start, ret), false)
    else (if ch == 47
        then (if is_next 43 next
            then ((in_block_comment_hint, ret ++ 47 ∷ 42 ∷ 43 ∷ []), true)
            else ((in_block_comment, ret), false))
        else ((opens ch, unless_comment_char ch ret), false))
round double_quote next ch ret =
    (in_quote 34 double_quote backslash_after_double_quote ch ret, false)
round single_quote next ch ret =
    (in_quote 39 single_quote backslash_after_single_quote ch ret, false)
round backslash_after_single_quote next ch ret = ((single_quote, ret ++ ch ∷ []), false)
round backslash_after_double_quote next ch ret = ((double_quote, ret ++ ch ∷ []), false)
round quote_done next ch ret =
    if is_white_char ch
    then ((in_space, ret ++ 32 ∷ []), false)
    else ((opens ch, unless_comment_char ch ret), false)
round content next ch ret =
    if is_white_char ch
    then ((in_space, ret ++ 32 ∷ []), false)
    else ((opens ch, unless_comment_char ch ret), false)
round in_space next ch ret =
    if is_white_char ch
    then ((in_space, ret), false)
    else ((opens ch, unless_comment_char ch ret), false)

-- The loop; the first argument tells that a character is passed over.
unfoldable pub loop : Bool → State → Text → Text → Text
loop skip state ret [] = ret
loop true state ret (ch ∷ sql) = loop false state ret sql
loop false state ret (ch ∷ sql) =
    let r = round state (element 0 sql) ch ret in loop r.1 r.0.0 r.0.1 sql

unfoldable pub minify : Text → Text
unfolding loop
minify sql = trim (loop false start [] sql)
