-- ===== src/Sql/Rounds.antt =====
-- The rounds of `minify`'s loop over the characters of a word or a literal.
use tegg.Prelude.{
  ℕ, ◌≡◌, refl, ap, sym, ◌∙◌, Bool, true, false, List, [], ◌∷◌, ◌++◌, append-nil, append_assoc,
  ◌==◌, nat_key, ◌||◌, not, All, element, arith,
}
use tegg.Store.Lines.{Text}
use tegg.Sql.{
  State, start, content, in_space, single_quote, double_quote, backslash_after_single_quote,
  backslash_after_double_quote, quote_done, may_be_first_comment, is_white_char, ends_filled,
  may_be_first, in_quote, opens, round, loop,
}
use tegg.Sql.Pieces.{
  is_word_char, Item, plain, escaped, Quote, single, double, mark, IsItem, items_text,
}

-- The loop stands between two pieces, and has `ret`.
pub data Between : Bool → State → Text → Type 0 where
  at_start : Between true start []
  after_gap : {ret : Text} → ends_filled ret ≡ false → Between true in_space ret
  in_content : {ret : Text} → ends_filled ret ≡ true → Between false content ret
  after_quote : {ret : Text} → ends_filled ret ≡ true → Between false quote_done ret

pub ends_filled-snoc : (ret : Text) (c : ℕ) → ends_filled (ret ++ c ∷ []) ≡ not (is_white_char c)
ends_filled-snoc [] c = refl
ends_filled-snoc (d ∷ []) c = refl
ends_filled-snoc (d ∷ e ∷ ret) c = ends_filled-snoc (e ∷ ret) c

pub loop-round :
    (state next : State) (ret ret' : Text) (c : ℕ) (sql : Text)
    → round state (element 0 sql) c ret ≡ ((next, ret'), false)
    → loop false state ret (c ∷ sql) ≡ loop false next ret' sql
unfolding loop
loop-round state next ret ret' c sql h = ap (λ r. loop r.1 r.0.0 r.0.1 sql) h

-- From between two pieces, the first character of a word.
pub word_first :
    {gap : Bool} {state : State} {ret : Text} (c : ℕ) (sql : Text)
    → Between gap state ret
    → is_word_char c ≡ true
    → loop false state ret (c ∷ sql) ≡ loop false content (ret ++ c ∷ []) sql
word_first c sql at_start h = loop-round _ _ _ _ c sql (unfold round in ground (arith, h))
word_first c sql (after_gap e) h = loop-round _ _ _ _ c sql (unfold round in ground (arith, h))
word_first c sql (in_content e) h = loop-round _ _ _ _ c sql (unfold round in ground (arith, h))
word_first c sql (after_quote e) h = loop-round _ _ _ _ c sql (unfold round in ground (arith, h))

pub word_rest :
    (ret w sql : Text)
    → All (λ c. is_word_char c ≡ true) w
    → loop false content ret (w ++ sql) ≡ loop false content (ret ++ w) sql
word_rest ret [] sql a = ap (λ t. loop false content t sql) (sym (append-nil ret))
word_rest ret (c ∷ w) sql a =
    loop-round content content ret (ret ++ c ∷ []) c (w ++ sql)
      (unfold round in ground (arith, a.0))
    ∙ word_rest (ret ++ c ∷ []) w sql a.1
    ∙ ap (λ t. loop false content t sql) (append_assoc ret (c ∷ []) w)

pub ends_filled-word :
    (ret : Text) (c : ℕ) (w : Text)
    → All (λ c. is_word_char c ≡ true) (c ∷ w)
    → ends_filled (ret ++ c ∷ w) ≡ true
ends_filled-word ret c [] a = ground (arith, ends_filled-snoc ret c, a.0)
ends_filled-word ret c (d ∷ w) a =
    ap ends_filled (sym (append_assoc ret (c ∷ []) (d ∷ w)))
    ∙ ends_filled-word (ret ++ c ∷ []) d w a.1

-- From between two pieces, a character that opens what follows and is not kept at once.
pub opens_round :
    {gap : Bool} {state : State} {ret : Text} (c : ℕ) (sql : Text)
    → Between gap state ret
    → (c == 45 || c == 35) ≡ true
    → loop false state ret (c ∷ sql) ≡ loop false (opens c) ret sql
opens_round c sql at_start h = loop-round _ _ _ _ c sql (unfold round in ground (arith, h))
opens_round c sql (after_gap e) h = loop-round _ _ _ _ c sql (unfold round in ground (arith, h))
opens_round c sql (in_content e) h = loop-round _ _ _ _ c sql (unfold round in ground (arith, h))
opens_round c sql (after_quote e) h = loop-round _ _ _ _ c sql (unfold round in ground (arith, h))

pub minus_next :
    (ret : Text) (c : ℕ) (sql : Text)
    → is_word_char c ≡ true
    → loop false may_be_first_comment ret (c ∷ sql) ≡ loop false content (ret ++ 45 ∷ c ∷ []) sql
minus_next ret c sql h = loop-round _ _ _ _ c sql (unfold round may_be_first in ground (arith, h))

abbrev pub quoted : Quote → State
quoted single = single_quote
quoted double = double_quote

abbrev backslashed : Quote → State
backslashed single = backslash_after_single_quote
backslashed double = backslash_after_double_quote

pub quote_first :
    {gap : Bool} {state : State} {ret : Text} (q : Quote) (sql : Text)
    → Between gap state ret
    → loop false state ret (mark q ∷ sql) ≡ loop false (quoted q) (ret ++ mark q ∷ []) sql
quote_first single sql at_start = loop-round _ _ _ _ 39 sql (unfold round in refl)
quote_first single sql (after_gap e) = loop-round _ _ _ _ 39 sql (unfold round in refl)
quote_first single sql (in_content e) = loop-round _ _ _ _ 39 sql (unfold round in refl)
quote_first single sql (after_quote e) = loop-round _ _ _ _ 39 sql (unfold round in refl)
quote_first double sql at_start = loop-round _ _ _ _ 34 sql (unfold round in refl)
quote_first double sql (after_gap e) = loop-round _ _ _ _ 34 sql (unfold round in refl)
quote_first double sql (in_content e) = loop-round _ _ _ _ 34 sql (unfold round in refl)
quote_first double sql (after_quote e) = loop-round _ _ _ _ 34 sql (unfold round in refl)

quote_plain :
    (q : Quote) (ret : Text) (c : ℕ) (sql : Text)
    → IsItem q (plain c)
    → loop false (quoted q) ret (c ∷ sql) ≡ loop false (quoted q) (ret ++ c ∷ []) sql
quote_plain single ret c sql h =
    loop-round _ _ _ _ c sql (unfold round in_quote in ground (arith, h))
quote_plain double ret c sql h =
    loop-round _ _ _ _ c sql (unfold round in_quote in ground (arith, h))

quote_escaped :
    (q : Quote) (ret : Text) (c : ℕ) (sql : Text)
    → loop false (quoted q) ret (92 ∷ c ∷ sql) ≡ loop false (quoted q) (ret ++ 92 ∷ c ∷ []) sql
quote_escaped single ret c sql =
    loop-round single_quote backslash_after_single_quote ret (ret ++ 92 ∷ []) 92 (c ∷ sql)
      (unfold round in_quote in refl)
    ∙ loop-round backslash_after_single_quote single_quote (ret ++ 92 ∷ [])
        ((ret ++ 92 ∷ []) ++ c ∷ []) c sql (unfold round in refl)
    ∙ ap (λ t. loop false single_quote t sql) (append_assoc ret (92 ∷ []) (c ∷ []))
quote_escaped double ret c sql =
    loop-round double_quote backslash_after_double_quote ret (ret ++ 92 ∷ []) 92 (c ∷ sql)
      (unfold round in_quote in refl)
    ∙ loop-round backslash_after_double_quote double_quote (ret ++ 92 ∷ [])
        ((ret ++ 92 ∷ []) ++ c ∷ []) c sql (unfold round in refl)
    ∙ ap (λ t. loop false double_quote t sql) (append_assoc ret (92 ∷ []) (c ∷ []))

pub quote_last :
    (q : Quote) (ret sql : Text)
    → loop false (quoted q) ret (mark q ∷ sql) ≡ loop false quote_done (ret ++ mark q ∷ []) sql
quote_last single ret sql = loop-round _ _ _ _ 39 sql (unfold round in_quote in refl)
quote_last double ret sql = loop-round _ _ _ _ 34 sql (unfold round in_quote in refl)

pub quote_items :
    (q : Quote) (ret : Text) (items : List Item) (sql : Text)
    → All (IsItem q) items
    → loop false (quoted q) ret (items_text items ++ sql)
      ≡ loop false (quoted q) (ret ++ items_text items) sql
quote_items q ret [] sql a = ap (λ t. loop false (quoted q) t sql) (sym (append-nil ret))
quote_items q ret (plain c ∷ items) sql a =
    quote_plain q ret c (items_text items ++ sql) a.0
    ∙ quote_items q (ret ++ c ∷ []) items sql a.1
    ∙ ap (λ t. loop false (quoted q) t sql) (append_assoc ret (c ∷ []) (items_text items))
quote_items q ret (escaped c ∷ items) sql a =
    quote_escaped q ret c (items_text items ++ sql)
    ∙ quote_items q (ret ++ 92 ∷ c ∷ []) items sql a.1
    ∙ ap (λ t. loop false (quoted q) t sql) (append_assoc ret (92 ∷ c ∷ []) (items_text items))
