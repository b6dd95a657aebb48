-- ===== src/Sql/Minify.antt =====
-- `minify` on texts of pieces.
use tegg.Prelude.{
  ℕ, ◌≡◌, refl, ap, sym, ◌∙◌, Bool, true, false, List, [], ◌∷◌, ◌++◌, append-nil, append_assoc,
  nat_key, if◌then◌else◌, not, All, arith,
}
use tegg.Store.Lines.{Text, trim}
use tegg.Sql.{
  State, start, content, in_space, quote_done, in_comment, in_block_comment, is_white_char,
  ends_filled, add_space, round, loop, minify,
}
use tegg.Sql.Pieces.{
  Quote, single, double, mark, Piece, word, minus, literal, space, hash_comment, dash_comment,
  block_comment, IsPiece, items_text, text_of, sql_of, is_gap, spaced,
}
use tegg.Sql.Rounds.{
  Between, at_start, after_gap, in_content, after_quote, word_first, word_rest, ends_filled-word,
  opens_round, minus_next, quote_first, quote_last, quote_items, loop-round, ends_filled-snoc,
}
use tegg.Sql.Comments.{
  line_body, block_body, comment_end, space_rest, space_start, block_first, dash_second,
}

-- What a piece adds to the text.
abbrev added : Bool → Piece → Text
added gap p = if is_gap p then (if gap then [] else 32 ∷ []) else text_of p

-- The loop over a piece, from between two pieces to between two pieces.
record Passes (gap : Bool) (state : State) (ret : Text) (p : Piece) (sql : Text) : Type 0 where
  next : State
  text : Text
  between : Between (is_gap p) next text
  looped : loop false state ret (text_of p ++ sql) ≡ loop false next text sql
  grown : text ≡ ret ++ added gap p

comment-Passes :
    {gap : Bool} {state : State} {ret : Text} (p : Piece) (sql : Text)
    → is_gap p ≡ true
    → Between gap state ret
    → loop false state ret (text_of p ++ sql) ≡ loop false in_space (add_space ret) sql
    → Passes gap state ret p sql
comment-Passes {gap} {state} {ret} p sql g b h =
    let (grows, after) = comment_end b in
    record {
      next = in_space;
      text = add_space ret;
      between = rw g after;
      looped = h;
      grown = grows ∙ rw g (gap_text gap ret);
    }
  where
    gap_text :
        (gap : Bool) (ret : Text)
        → (if gap then ret else ret ++ 32 ∷ []) ≡ ret ++ (if gap then [] else 32 ∷ [])
    gap_text true ret = sym (append-nil ret)
    gap_text false ret = refl

space-Passes :
    {gap : Bool} {state : State} {ret : Text} (c : ℕ) (w sql : Text)
    → Between gap state ret
    → IsPiece (space c w)
    → Passes gap state ret (space c w) sql
space-Passes c w sql at_start a = record {
  next = start;
  text = [];
  between = at_start;
  looped = space_start (c ∷ w) sql a;
  grown = refl;
}
space-Passes {ret = ret} c w sql (after_gap e) a = record {
  next = in_space;
  text = ret;
  between = after_gap e;
  looped = space_rest ret (c ∷ w) sql a;
  grown = sym (append-nil ret);
}
space-Passes {ret = ret} c w sql (in_content e) a = record {
  next = in_space;
  text = ret ++ 32 ∷ [];
  between = after_gap (ends_filled-snoc ret 32);
  looped =
      loop-round content in_space ret (ret ++ 32 ∷ []) c (w ++ sql)
        (unfold round in ground (arith, a.0))
      ∙ space_rest (ret ++ 32 ∷ []) w sql a.1;
  grown = refl;
}
space-Passes {ret = ret} c w sql (after_quote e) a = record {
  next = in_space;
  text = ret ++ 32 ∷ [];
  between = after_gap (ends_filled-snoc ret 32);
  looped =
      loop-round quote_done in_space ret (ret ++ 32 ∷ []) c (w ++ sql)
        (unfold round in ground (arith, a.0))
      ∙ space_rest (ret ++ 32 ∷ []) w sql a.1;
  grown = refl;
}

ends_filled-end :
    (ret t : Text) (c : ℕ) → ends_filled (ret ++ (t ++ c ∷ [])) ≡ not (is_white_char c)
ends_filled-end ret t c =
    ap ends_filled (sym (append_assoc ret t (c ∷ []))) ∙ ends_filled-snoc (ret ++ t) c

mark_filled : (q : Quote) → not (is_white_char (mark q)) ≡ true
mark_filled single = refl
mark_filled double = refl

piece-Passes :
    {gap : Bool} {state : State} {ret : Text} (p : Piece) (sql : Text)
    → Between gap state ret
    → IsPiece p
    → Passes gap state ret p sql
piece-Passes {ret = ret} (word c w) sql b a = record {
  next = content;
  text = ret ++ c ∷ w;
  between = in_content (ends_filled-word ret c w a);
  looped =
      word_first c (w ++ sql) b a.0
      ∙ word_rest (ret ++ c ∷ []) w sql a.1
      ∙ ap (λ t. loop false content t sql) (append_assoc ret (c ∷ []) w);
  grown = refl;
}
piece-Passes {ret = ret} (minus c) sql b a = record {
  next = content;
  text = ret ++ 45 ∷ c ∷ [];
  between = in_content (ends_filled-end ret (45 ∷ []) c ∙ ground (arith, a));
  looped = opens_round 45 (c ∷ sql) b refl ∙ minus_next ret c sql a;
  grown = refl;
}
piece-Passes {state = state} {ret = ret} (literal q items) sql b a = record {
  next = quote_done;
  text = ret ++ text_of (literal q items);
  between = after_quote (ends_filled-end ret (mark q ∷ items_text items) (mark q) ∙ mark_filled q);
  looped =
      ap (λ t. loop false state ret (mark q ∷ t))
        (append_assoc (items_text items) (mark q ∷ []) sql)
      ∙ quote_first q (items_text items ++ mark q ∷ sql) b
      ∙ quote_items q (ret ++ mark q ∷ []) items (mark q ∷ sql) a
      ∙ quote_last q ((ret ++ mark q ∷ []) ++ items_text items) sql
      ∙ ap (λ t. loop false quote_done t sql)
          (append_assoc (ret ++ mark q ∷ []) (items_text items) (mark q ∷ [])
            ∙ append_assoc ret (mark q ∷ []) (items_text items ++ mark q ∷ []));
  grown = refl;
}
piece-Passes (space c w) sql b a = space-Passes c w sql b a
piece-Passes {ret = ret} (hash_comment body end_) sql b a =
    comment-Passes (hash_comment body end_) sql refl b (
      opens_round 35 ((body ++ end_ ∷ []) ++ sql) b refl
      ∙ ap (loop false in_comment ret) (append_assoc body (end_ ∷ []) sql)
      ∙ line_body ret body sql end_ a.0 a.1)
piece-Passes {ret = ret} (dash_comment c body end_) sql b a =
    comment-Passes (dash_comment c body end_) sql refl b (
      opens_round 45 (45 ∷ c ∷ (body ++ end_ ∷ []) ++ sql) b refl
      ∙ dash_second ret c ((body ++ end_ ∷ []) ++ sql) a.0
      ∙ ap (loop false in_comment ret) (append_assoc body (end_ ∷ []) sql)
      ∙ line_body ret body sql end_ (a.1).1 a.2)
piece-Passes {ret = ret} (block_comment c body) sql b a =
    comment-Passes (block_comment c body) sql refl b (
      block_first c ((body ++ 42 ∷ 47 ∷ []) ++ sql) b a.0
      ∙ ap (loop false in_block_comment ret) (append_assoc body (42 ∷ 47 ∷ []) sql)
      ∙ block_body false ret body sql a.1)

loop-sql_of :
    (ps : List Piece) {gap : Bool} {state : State} {ret : Text}
    → Between gap state ret
    → All IsPiece ps
    → loop false state ret (sql_of ps) ≡ ret ++ spaced gap ps
loop-sql_of [] {ret = ret} b a = unfold loop in sym (append-nil ret)
loop-sql_of (p ∷ ps) {gap} {state} {ret} b a =
    let step : Passes gap state ret p (sql_of ps) = piece-Passes p (sql_of ps) b a.0 in
    step.looped
    ∙ loop-sql_of ps step.between a.1
    ∙ ap (λ t. t ++ spaced (is_gap p) ps) step.grown
    ∙ append_assoc ret (added gap p) (spaced (is_gap p) ps)
    ∙ ap (λ t. ret ++ t) (added_spaced (is_gap p) gap (text_of p) ps)
  where
    added_spaced :
        (g gap : Bool) (t : Text) (ps : List Piece)
        → (if g then (if gap then [] else 32 ∷ []) else t) ++ spaced g ps ≡ (
            if g
            then (if gap then spaced true ps else 32 ∷ spaced true ps)
            else t ++ spaced false ps)
    added_spaced true true t ps = refl
    added_spaced true false t ps = refl
    added_spaced false gap t ps = refl

-- `minify`, on the SQL of any pieces, keeps the words and the literals as they are, quotes and escapes
-- included and whatever the literals hold, and leaves one space for all the spaces and comments
-- between two of them; then it trims the text. The pieces are: words, of characters that are no space,
-- quote, minus, number sign or slash; a minus and a character of a word; literals that are closed;
-- spaces; comments behind a number sign, and those behind two dashes that have a character and do not
-- begin with a plus, both up to a line end; and block comments whose first character, which they have,
-- is no plus and no slash, and in which, behind that character, no asterisk stands before an asterisk
-- or a slash, or last: `/* a **/` is none.
pub minify_lem : (ps : List Piece) → All IsPiece ps → minify (sql_of ps) ≡ trim (spaced true ps)
unfolding minify
minify_lem ps a = ap trim (loop-sql_of ps at_start a)
