-- ===== src/Formatter/Numbered.antt =====
-- Numbered lines without colours, read back: the source from behind the bars, the marked lines by their
-- numbers.
use vcltest.Base.{
  Bool, true, false, Option, none, some, List, [], ◌∷◌, ◌++◌, ℕ, zero, suc, ◌+◌, ◌%◌, ◌/◌, ◌≡◌, ◌≢◌,
  refl, sym, ap, ◌∙◌, inl, inr, subst, nat_beq, if◌then◌else◌, if_true, if_false, Bool-cases, All,
  All-append, filter, length, drop, arith, append_assoc, contains,
}
use vcltest.Base.Int.{int_eq}
use vcltest.Base.Text.{
  Text, codes, lines, decimal, decimal_digits, split_at, Lacks, has_prefix, has_prefix-append, join,
  join-split, split-Lacks,
}
use vcltest.Formatter.{spaces, pad_number, numbered, each_line, no_mark}

-- The text behind the first bar and the space that follows it.
unfoldable pub after_bar : Text → Option Text
after_bar [] = none
after_bar (c ∷ s) = let rest = after_bar s in if nat_beq c b'|' then some (drop 1 s) else rest

abbrev add_text : Option Text → List Text → List Text
add_text none ts = ts
add_text (some t) ts = t ∷ ts

unfoldable pub collect : List Text → List Text
unfolding after_bar
collect [] = []
collect (l ∷ ls) = add_text (after_bar l) (collect ls)

-- The source that a display shows.
unfoldable pub shown_source : Text → Text
unfolding collect lines join
shown_source display = join (collect (lines display)) (b'\n' ∷ [])

abbrev pub numbers_from : ℕ → ℕ → List ℕ
numbers_from n zero = []
numbers_from n (suc k) = n ∷ numbers_from (n + 1) k

-- The numbers of the lines that start with a mark; the first line has the number `n`.
unfoldable pub marked_from : Text → ℕ → List Text → List ℕ
unfolding has_prefix
marked_from mark n [] = []
marked_from mark n (l ∷ ls) =
    let rest = marked_from mark (n + 1) ls in if has_prefix l mark then n ∷ rest else rest

unfoldable pub shown_marks : Text → Text → List ℕ
unfolding marked_from lines
shown_marks mark display = marked_from mark 1 (lines display)

-- A byte that stands in front of the bar.
abbrev pub IsFront : ℕ → Type 0
IsFront c = (nat_beq c b'\n' ≡ false) × (nat_beq c b'|' ≡ false)

spaces-All : (n : ℕ) → All IsFront (spaces n)
spaces-All zero = tt
spaces-All (suc n) = ((refl, refl), spaces-All n)

digit-IsFront : (n : ℕ) → IsFront (b'0' + n % 10)
digit-IsFront n = (ground arith, ground arith)

either-All :
    (b : Bool) (s t : Text) → All IsFront s → All IsFront t → All IsFront (if b then s else t)
either-All true s t h k = h
either-All false s t h k = k

decimal_digits-All :
    (fuel n : ℕ) (acc : Text) → All IsFront acc → All IsFront (decimal_digits fuel n acc)
unfolding decimal_digits
decimal_digits-All zero n acc h = h
decimal_digits-All (suc fuel) n acc h =
    either-All (nat_beq (n / 10) 0) ((b'0' + n % 10) ∷ acc) _ (digit-IsFront n, h)
      (decimal_digits-All fuel (n / 10) ((b'0' + n % 10) ∷ acc) (digit-IsFront n, h))

after_bar-front :
    (h : Text) (c : ℕ) (s : Text) → All IsFront h → after_bar (h ++ b'|' ∷ c ∷ s) ≡ some s
unfolding after_bar
after_bar-front [] c s a = refl
after_bar-front (x ∷ h) c s ((p, q), a) = rw q (after_bar-front h c s a)

front-Lacks : (h : Text) → All IsFront h → Lacks b'\n' h
front-Lacks [] a = tt
front-Lacks (x ∷ h) ((p, q), a) = (p, front-Lacks h a)

-- The display of a list of lines, of which those with a number in `p` have the mark.
module _ (width : ℕ) (m : ℕ) (mark : Text) (p : ℕ → Bool) where
  abbrev pub marked_line : ℕ → Text → Text
  unfolding numbered
  marked_line n line = numbered width (if p n then m ∷ mark else no_mark) n line

  abbrev front : ℕ → Text
  unfolding pad_number
  front n = (if p n then m ∷ mark else no_mark) ++ (pad_number width n ++ b' ' ∷ [])

  module _ (a : All IsFront (m ∷ mark)) (d : nat_beq b' ' m ≡ false) where
    front-All : (n : ℕ) → All IsFront (front n)
    unfolding pad_number decimal
    front-All n =
        All-append IsFront (if p n then m ∷ mark else no_mark) (pad_number width n ++ b' ' ∷ [])
          (either-All (p n) (m ∷ mark) no_mark a ((refl, refl), ((refl, refl), tt)))
          (All-append IsFront (pad_number width n) (b' ' ∷ [])
            (All-append IsFront (spaces _) (decimal n) (spaces-All _)
              (decimal_digits-All (n + 1) n [] tt))
            ((refl, refl), tt))

    line_front : (n : ℕ) (line : Text) → marked_line n line ≡ front n ++ b'|' ∷ b' ' ∷ line
    unfolding numbered pad_number
    line_front n line = sym (
        append_assoc (if p n then m ∷ mark else no_mark) (pad_number width n ++ b' ' ∷ [])
          (b'|' ∷ b' ' ∷ line)
        ∙ ap (λ t. (if p n then m ∷ mark else no_mark) ++ t)
            (append_assoc (pad_number width n) (b' ' ∷ []) (b'|' ∷ b' ' ∷ line)))

    line-Lacks : (n : ℕ) (line : Text) → Lacks b'\n' line → Lacks b'\n' (marked_line n line)
    line-Lacks n line h = subst (Lacks b'\n') (sym (line_front n line)) (
        All-append (λ x. nat_beq x b'\n' ≡ false) (front n) (b'|' ∷ b' ' ∷ line)
          (front-Lacks (front n) (front-All n)) (refl, (refl, h)))

    after_bar_line : (n : ℕ) (line : Text) → after_bar (marked_line n line) ≡ some line
    after_bar_line n line =
        ap after_bar (line_front n line) ∙ after_bar-front (front n) b' ' line (front-All n)

    mark_line : (n : ℕ) (line : Text) → has_prefix (marked_line n line) (m ∷ mark) ≡ p n
    unfolding has_prefix numbered
    mark_line n line = elim (Bool-cases (p n)) [
      | inl y ↦ rw y (has_prefix-append (m ∷ mark) _)
      | inr k ↦ rw (k, d) refl
    ]

    lines_shown :
        (n : ℕ) (line : Text) (rest : List Text)
        → Lacks b'\n' line
        → lines (each_line marked_line n (line ∷ rest))
          ≡ marked_line n line ∷ lines (each_line marked_line (n + 1) rest)
    unfolding lines each_line
    lines_shown n line rest h = split_at b'\n' (marked_line n line) _ (line-Lacks n line h)

    collect_end : collect (lines []) ≡ []
    unfolding collect lines vcltest.Base.Text.split after_bar
    collect_end = refl

    marked_end : (n : ℕ) → marked_from (m ∷ mark) n (lines []) ≡ []
    unfolding marked_from lines vcltest.Base.Text.split has_prefix
    marked_end n = refl

    pub collect_shown :
        (n : ℕ) (ls : List Text)
        → All (Lacks b'\n') ls
        → collect (lines (each_line marked_line n ls)) ≡ ls
    unfolding collect each_line lines
    collect_shown n [] h = collect_end
    collect_shown n (line ∷ rest) (q, h) =
        ap collect (lines_shown n line rest q)
        ∙ rw (after_bar_line n line) (ap (λ t. line ∷ t) (collect_shown (n + 1) rest h))

    pub marked_shown :
        (n : ℕ) (ls : List Text)
        → All (Lacks b'\n') ls
        → marked_from (m ∷ mark) n (lines (each_line marked_line n ls))
          ≡ filter p (numbers_from n (length ls))
    unfolding marked_from each_line lines
    marked_shown n [] h = marked_end n
    marked_shown n (line ∷ rest) (q, h) =
        ap (marked_from (m ∷ mark) n) (lines_shown n line rest q)
        ∙ rw (mark_line n line) (ap (λ t. if p n then n ∷ t else t) (marked_shown (n + 1) rest h))
