-- ===== src/Formatter/Shown.antt =====
-- What a display without colours shows: the source, and the lines that ran.
use mathlib.Core.Option
use vcltest.Base.{
  Bool, true, false, Option, none, some, List, [], ◌∷◌, ◌++◌, ℕ, ◌+◌, ◌≡◌, refl, sym, ap, ◌∙◌,
  filter, length, contains, if◌then◌else◌, All, nat_beq, subst,
}
use vcltest.Base.Int.{ℤ, pos, int_eq}
use vcltest.Base.Map.{lookup}
use vcltest.Base.Text.{Text, codes, lines, join, join-split, split-Lacks}
use vcltest.Coverage.{FileBlocks, header, get_line_status, find_block_at_line}
use vcltest.Coverage.Trees.{Apart, get_line_status-find}
use vcltest.Formatter.{
  numbered, each_line, trace_line, format_vcl_with_trace, block_line, format_vcl_with_blocks,
  check_mark, no_mark, status_of,
}
use vcltest.Formatter.Numbered.{
  shown_source, numbers_from, shown_marks, marked_line, IsFront, collect_shown, marked_shown,
}

-- The display of a text: its source, and the numbers of its marked lines.
abbrev pub Shows : Text → Text → (ℕ → Bool) → Text → Type 0
Shows mark source p display =
    (shown_source display ≡ source)
    × (shown_marks mark display ≡ filter p (numbers_from 1 (length (lines source))))

display-Shows :
    (width m : ℕ) (mark : Text) (p : ℕ → Bool) (source : Text)
    → All IsFront (m ∷ mark)
    → nat_beq b' ' m ≡ false
    → Shows (m ∷ mark) source p (each_line (marked_line width m mark p) 1 (lines source))
unfolding lines shown_source shown_marks
display-Shows width m mark p source a d = (
  ap (λ ls. join ls (b'\n' ∷ []))
        (collect_shown width m mark p a d 1 (lines source) (split-Lacks b'\n' source))
      ∙ join-split b'\n' source,
  marked_shown width m mark p a d 1 (lines source) (split-Lacks b'\n' source),
)

-- Without colours the display shows the source, and it marks the lines of the source whose number is in
-- the trace, and no others.
pub format_vcl_with_trace-Shows :
    (source : Text) (executed : List ℤ)
    → Shows check_mark source
        (λ n. contains executed (pos n))
        (format_vcl_with_trace source executed false)
unfolding format_vcl_with_trace trace_line numbered
format_vcl_with_trace-Shows source executed =
    display-Shows 3 226 (156 ∷ 147 ∷ b' ' ∷ []) (λ n. contains executed (pos n)) source
      ((refl, refl), ((refl, refl), ((refl, refl), ((refl, refl), tt)))) refl

abbrev pub is_entered : Option Bool → Bool
is_entered none = false
is_entered (some b) = b

block_line-marked :
    (n : ℕ) (line : Text) (s : Option Bool)
    → block_line false s n line ≡ numbered 4 (if is_entered s then codes "* " else no_mark) n line
unfolding block_line
block_line-marked n line none = refl
block_line-marked n line (some true) = refl
block_line-marked n line (some false) = refl

each_line-same :
    (f g : ℕ → Text → Text) (n : ℕ) (ls : List Text)
    → ((k : ℕ) (line : Text) → f k line ≡ g k line)
    → each_line f n ls ≡ each_line g n ls
unfolding each_line
each_line-same f g n [] h = refl
each_line-same f g n (line ∷ rest) h =
    ap (λ t. t ++ b'\n' ∷ each_line f (n + 1) rest) (h n line)
    ∙ ap (λ t. g n line ++ b'\n' ∷ t) (each_line-same f g (n + 1) rest h)

filter-same : (p q : ℕ → Bool) (ns : List ℕ) → ((n : ℕ) → p n ≡ q n) → filter p ns ≡ filter q ns
filter-same p q [] h = refl
filter-same p q (n ∷ ns) h =
    ap (λ b. if b then n ∷ filter p ns else filter p ns) (h n)
    ∙ ap (λ t. if q n then n ∷ t else t) (filter-same p q ns h)

-- Whether the innermost block around a line has been entered; there may be none.
abbrev pub innermost_entered : FileBlocks → ℕ → Bool
innermost_entered fb n =
    is_entered (Option.map (λ b. (header b).entered) (find_block_at_line fb (pos n)))

status-Shows :
    (source : Text) (fb : FileBlocks)
    → Shows
        (codes "* ")
        source
        (λ n. is_entered (lookup (pos n) (get_line_status fb)))
        (format_vcl_with_blocks source (some fb) false)
unfolding format_vcl_with_blocks numbered status_of get_line_status
status-Shows source fb =
    subst (Shows (codes "* ") source (λ n. is_entered (lookup (pos n) (get_line_status fb))))
      (each_line-same _ _ 1 (lines source)
        (λ k line. sym (block_line-marked k line (lookup (pos k) (get_line_status fb)))))
      (display-Shows 4 b'*' (b' ' ∷ []) (λ n. is_entered (lookup (pos n) (get_line_status fb)))
        source ((refl, refl), ((refl, refl), tt)) refl)

-- In a tree whose siblings share no line and without colours, the display shows the source, and it marks
-- the lines whose innermost block was entered, and no others: no line outside of every block.
pub format_vcl_with_blocks-Shows :
    (source : Text) (fb : FileBlocks)
    → Apart fb.blocks
    → Shows
        (codes "* ")
        source
        (innermost_entered fb)
        (format_vcl_with_blocks source (some fb) false)
format_vcl_with_blocks-Shows source fb a =
    let (s, m) = status-Shows source fb in
    (
      s,
      m
          ∙ filter-same _ (innermost_entered fb) (numbers_from 1 (length (lines source)))
              (λ n. ap is_entered (get_line_status-find fb (pos n) a)),
    )
