-- ===== src/Sql/Comments.antt =====
-- The rounds of `minify`'s loop over the characters of a comment or of spaces.
use tegg.Prelude.{
  ℕ, ◌≡◌, inl, inr, refl, ◌∙◌, Bool, true, false, [], ◌∷◌, ◌++◌, Option, ◌==◌, nat_key,
  if◌then◌else◌, ◌||◌, All, Bool-cases, arith,
}
use tegg.Store.Lines.{Text}
use tegg.Sql.{
  State, start, content, in_space, quote_done, may_be_first_comment, may_be_first_block_comment,
  in_comment_wait_hint, in_block_comment_wait_hint, in_comment, in_block_comment,
  may_be_last_block_comment, is_white_char, is_line_end, add_space, may_be_first, round, loop,
}
use tegg.Sql.Pieces.{is_body}
use tegg.Sql.Rounds.{
  Between, at_start, after_gap, in_content, after_quote, loop-round, ends_filled-snoc,
}

-- Comments, up to their end.
pub line_body :
    (ret body sql : Text) (end_ : ℕ)
    → All (λ c. is_line_end c ≡ false) body
    → is_line_end end_ ≡ true
    → loop false in_comment ret (body ++ end_ ∷ sql) ≡ loop false in_space (add_space ret) sql
line_body ret [] sql end_ a h = loop-round _ _ _ _ end_ sql (unfold round in ground (arith, h))
line_body ret (c ∷ body) sql end_ a h =
    loop-round in_comment in_comment ret ret c (body ++ end_ ∷ sql)
      (unfold round in ground (arith, a.0))
    ∙ line_body ret body sql end_ a.1 h

is_body-star :
    (c : ℕ) (body : Text)
    → is_body true (c ∷ body) ≡ true
    → (is_body false body ≡ true) × ((c == 42 || c == 47) ≡ false)
unfolding is_body
is_body-star c body h = (ground (arith, h), ground (arith, h))

is_body-next :
    (c : ℕ) (body : Text) → is_body false (c ∷ body) ≡ true → is_body (c == 42) body ≡ true
unfolding is_body
is_body-next c body h = elim (Bool-cases (c == 42)) [
  | inl b ↦ rw b (ground (arith, b, h))
  | inr b ↦ rw b (ground (arith, b, h))
]

is_body-nil : is_body true [] ≡ true → ⊥
unfolding is_body
is_body-nil h = cc

abbrev pub in_body : Bool → State
in_body true = may_be_last_block_comment
in_body false = in_block_comment

body_round :
    (c : ℕ) (next : Option ℕ) (ret : Text)
    → round in_block_comment next c ret ≡ ((in_body (c == 42), ret), false)
unfolding round
body_round c next ret = elim (Bool-cases (c == 42)) [ inl b ↦ rw b refl | inr b ↦ rw b refl ]

pub block_body :
    (star : Bool) (ret body sql : Text)
    → is_body star body ≡ true
    → loop false (in_body star) ret (body ++ 42 ∷ 47 ∷ sql)
      ≡ loop false in_space (add_space ret) sql
block_body false ret [] sql h =
    loop-round in_block_comment may_be_last_block_comment ret ret 42 (47 ∷ sql)
      (unfold round in refl)
    ∙ loop-round may_be_last_block_comment in_space ret (add_space ret) 47 sql
        (unfold round in refl)
block_body true ret [] sql h = absurd (is_body-nil h)
block_body false ret (c ∷ body) sql h =
    loop-round in_block_comment (in_body (c == 42)) ret ret c (body ++ 42 ∷ 47 ∷ sql)
      (body_round c _ ret)
    ∙ block_body (c == 42) ret body sql (is_body-next c body h)
block_body true ret (c ∷ body) sql h =
    let (rest, other) = is_body-star c body h in
    loop-round may_be_last_block_comment in_block_comment ret ret c (body ++ 42 ∷ 47 ∷ sql)
      (unfold round in ground (arith, other))
    ∙ block_body false ret body sql rest

-- Behind a comment.
pub comment_end :
    {gap : Bool} {state : State} {ret : Text}
    → Between gap state ret
    → (add_space ret ≡ (if gap then ret else ret ++ 32 ∷ []))
      × Between true in_space (add_space ret)
unfolding add_space
comment_end at_start = (refl, after_gap refl)
comment_end (after_gap e) = (rw e refl, rw e (after_gap e))
comment_end {ret = ret} (in_content e) = (rw e refl, rw e (after_gap (ends_filled-snoc ret 32)))
comment_end {ret = ret} (after_quote e) = (rw e refl, rw e (after_gap (ends_filled-snoc ret 32)))

-- Spaces behind a gap.
pub space_rest :
    (ret w sql : Text)
    → All (λ c. is_white_char c ≡ true) w
    → loop false in_space ret (w ++ sql) ≡ loop false in_space ret sql
space_rest ret [] sql a = refl
space_rest ret (c ∷ w) sql a =
    loop-round in_space in_space ret ret c (w ++ sql) (unfold round in ground (arith, a.0))
    ∙ space_rest ret w sql a.1

pub space_start :
    (w sql : Text)
    → All (λ c. is_white_char c ≡ true) w
    → loop false start [] (w ++ sql) ≡ loop false start [] sql
space_start [] sql a = refl
space_start (c ∷ w) sql a =
    loop-round start start [] [] c (w ++ sql) (unfold round in ground (arith, a.0))
    ∙ space_start w sql a.1

block_second :
    (ret : Text) (c : ℕ) (sql : Text)
    → (c == 43 || c == 47) ≡ false
    → loop false may_be_first_block_comment ret (42 ∷ c ∷ sql) ≡ loop false in_block_comment ret sql
block_second ret c sql h =
    loop-round may_be_first_block_comment in_block_comment_wait_hint ret ret 42 (c ∷ sql)
      (unfold round may_be_first in refl)
    ∙ loop-round in_block_comment_wait_hint in_block_comment ret ret c sql
        (unfold round in ground (arith, h))

-- A slash and an asterisk, and the next character.
pub block_first :
    {gap : Bool} {state : State} {ret : Text} (c : ℕ) (sql : Text)
    → Between gap state ret
    → (c == 43 || c == 47) ≡ false
    → loop false state ret (47 ∷ 42 ∷ c ∷ sql) ≡ loop false in_block_comment ret sql
block_first c sql at_start h =
    loop-round start in_block_comment [] [] 47 (42 ∷ c ∷ sql) (unfold round in refl)
    ∙ loop-round in_block_comment may_be_last_block_comment [] [] 42 (c ∷ sql)
        (unfold round in refl)
    ∙ loop-round may_be_last_block_comment in_block_comment [] [] c sql
        (unfold round in ground (arith, h))
block_first {ret = ret} c sql (after_gap e) h =
    loop-round in_space may_be_first_block_comment ret ret 47 (42 ∷ c ∷ sql) (unfold round in refl)
    ∙ block_second ret c sql h
block_first {ret = ret} c sql (in_content e) h =
    loop-round content may_be_first_block_comment ret ret 47 (42 ∷ c ∷ sql) (unfold round in refl)
    ∙ block_second ret c sql h
block_first {ret = ret} c sql (after_quote e) h =
    loop-round quote_done may_be_first_block_comment ret ret 47 (42 ∷ c ∷ sql)
      (unfold round in refl)
    ∙ block_second ret c sql h

pub dash_second :
    (ret : Text) (c : ℕ) (sql : Text)
    → (c == 43) ≡ false
    → loop false may_be_first_comment ret (45 ∷ c ∷ sql) ≡ loop false in_comment ret sql
dash_second ret c sql h =
    loop-round may_be_first_comment in_comment_wait_hint ret ret 45 (c ∷ sql)
      (unfold round may_be_first in refl)
    ∙ loop-round in_comment_wait_hint in_comment ret ret c sql (unfold round in ground (arith, h))
