-- ===== src/Store/Lines.antt =====
-- The JSON lines of core/agent-runtime/src/OSSAgentStore.ts. A text is its list of UTF-16 code units.
use tegg.Prelude.{
  ℕ, ◌≤◌, length, ◌≡◌, refl, ap, sym, ◌∙◌, Bool, true, false, List, [], ◌∷◌, ◌++◌, append_assoc,
  if◌then◌else◌, ◌==◌, ◌&&◌, ◌||◌, not, nat_key, leb, filter, All, arith,
}

abbrev pub Text : Type 0
Text = List ℕ

abbrev pub newline : ℕ
newline = 10

-- The white space and the line ends of JavaScript.
abbrev pub is_space : ℕ → Bool
is_space c =
    leb 9 c && leb c 13
    || c == 32
    || c == 160
    || c == 5760
    || leb 8192 c && leb c 8202
    || c == 8232
    || c == 8233
    || c == 8239
    || c == 8287
    || c == 12288
    || c == 65279

abbrev pub is_empty : {A : Type 0} → List A → Bool
is_empty [] = true
is_empty (x ∷ xs) = false

unfoldable pub trim_start : Text → Text
trim_start [] = []
trim_start (c ∷ cs) = let rest = trim_start cs in if is_space c then rest else c ∷ cs

unfoldable pub trim_end : Text → Text
trim_end [] = []
trim_end (c ∷ cs) = let rest = trim_end cs in if is_empty rest && is_space c then [] else c ∷ rest

unfoldable pub trim : Text → Text
unfolding trim_start trim_end
trim t = trim_end (trim_start t)

abbrev pub first_with : ℕ → List Text → List Text
first_with c [] = (c ∷ []) ∷ []
first_with c (l ∷ ls) = (c ∷ l) ∷ ls

-- `split('\n')`.
unfoldable pub split : Text → List Text
split [] = [] ∷ []
split (c ∷ cs) = let rest = split cs in if c == newline then [] ∷ rest else first_with c rest

-- `.split('\n').filter(line => line.length > 0)`.
unfoldable pub lines_of : Text → List Text
unfolding split
lines_of t = filter (λ line. not (is_empty line)) (split t)

-- Each line behind the other, each with its line end.
unfoldable pub encode : List Text → Text
encode [] = []
encode (l ∷ ls) = l ++ newline ∷ encode ls

-- A text as `JSON.stringify` makes it of an object: not empty, on one line, with no space around it.
pub record IsLine (l : Text) : Type 0 where
  pub filled : is_empty l ≡ false
  pub on_one_line : All (λ c. (c == newline) ≡ false) l
  pub start : trim_start l ≡ l
  pub end : trim_end l ≡ l

split-line :
    (l rest : Text)
    → All (λ c. (c == newline) ≡ false) l
    → split (l ++ newline ∷ rest) ≡ l ∷ split rest
unfolding split
split-line [] rest a = refl
split-line (c ∷ l) rest a = ground (arith, a.0, split-line l rest a.1)

split_last : (l : Text) → All (λ c. (c == newline) ≡ false) l → split l ≡ l ∷ []
unfolding split
split_last [] a = refl
split_last (c ∷ l) a = ground (arith, a.0, split_last l a.1)

trim_end-append :
    (xs ys : Text) → is_empty (trim_end ys) ≡ false → trim_end (xs ++ ys) ≡ xs ++ trim_end ys
unfolding trim_end
trim_end-append [] ys h = refl
trim_end-append (c ∷ xs) ys h =
    let rest = trim_end-append xs ys h in
    let filled : is_empty (xs ++ trim_end ys) ≡ false = is_empty-append xs (trim_end ys) h in
    ground (arith, rest, filled)
  where
    is_empty-append : (xs zs : Text) → is_empty zs ≡ false → is_empty (xs ++ zs) ≡ false
    is_empty-append [] zs h = h
    is_empty-append (x ∷ xs) zs h = refl

trim_end-append_nil : (xs ys : Text) → trim_end ys ≡ [] → trim_end (xs ++ ys) ≡ trim_end xs
unfolding trim_end
trim_end-append_nil [] ys h = h
trim_end-append_nil (c ∷ xs) ys h = ground (arith, trim_end-append_nil xs ys h)

-- Without the last line end.
joined : Text → List Text → Text
joined l [] = l
joined l (m ∷ ls) = l ++ newline ∷ joined m ls

joined_filled : (l : Text) (ls : List Text) → is_empty l ≡ false → is_empty (joined l ls) ≡ false
unfolding joined
joined_filled l [] h = h
joined_filled (c ∷ l) (m ∷ ls) h = refl
joined_filled [] (m ∷ ls) h = refl

trim_end-encode :
    (l : Text) (ls : List Text) → All IsLine (l ∷ ls) → trim_end (encode (l ∷ ls)) ≡ joined l ls
unfolding encode joined
trim_end-encode l [] a = trim_end-append_nil l (newline ∷ []) (unfold trim_end in refl) ∙ (a.0).end
trim_end-encode l (m ∷ ls) a =
    let rest = trim_end-encode m ls a.1 in
    let filled : is_empty (trim_end (encode (m ∷ ls))) ≡ false =
      ap is_empty rest ∙ joined_filled m ls ((a.1).0).filled in
    ap trim_end (sym (append_assoc l (newline ∷ []) (encode (m ∷ ls))))
    ∙ trim_end-append (l ++ newline ∷ []) (encode (m ∷ ls)) filled
    ∙ append_assoc l (newline ∷ []) (trim_end (encode (m ∷ ls)))
    ∙ ap (λ z. l ++ newline ∷ z) rest

lines_of-joined :
    (l : Text) (ls : List Text) → All IsLine (l ∷ ls) → lines_of (joined l ls) ≡ l ∷ ls
unfolding lines_of joined
lines_of-joined l [] a = ground (arith, split_last l (a.0).on_one_line, (a.0).filled)
lines_of-joined l (m ∷ ls) a =
    ground
      (arith, split-line l (joined m ls) (a.0).on_one_line, (a.0).filled, lines_of-joined m ls a.1)

trim_start-length : (t : Text) → length (trim_start t) ≤ length t
unfolding trim_start
trim_start-length [] = omega arith
trim_start-length (c ∷ cs) = ground (arith, trim_start-length cs)

-- Text that begins with a line of its own begins without a space.
trim_start-append : (l rest : Text) → IsLine l → trim_start (l ++ rest) ≡ l ++ rest
unfolding trim_start
trim_start-append [] rest a = absurd (ground (arith, a.filled))
trim_start-append (c ∷ l) rest a = ground (arith, a.start, trim_start-length l, ap length a.start)

-- The lines that were written are the lines that are read, in their order.
pub lines_of-trim-encode : (ls : List Text) → All IsLine ls → lines_of (trim (encode ls)) ≡ ls
unfolding lines_of trim encode
lines_of-trim-encode [] a = (unfold trim_start trim_end split in refl)
lines_of-trim-encode (l ∷ ls) a =
    ap (λ z. lines_of (trim_end z)) (trim_start-append l (newline ∷ encode ls) a.0)
    ∙ ap lines_of (trim_end-encode l ls a)
    ∙ lines_of-joined l ls a

pub encode-append : (ls ms : List Text) → encode (ls ++ ms) ≡ encode ls ++ encode ms
unfolding encode
encode-append [] ms = refl
encode-append (l ∷ ls) ms =
    ap (λ z. l ++ newline ∷ z) (encode-append ls ms)
    ∙ sym (append_assoc l (newline ∷ encode ls) (encode ms))
