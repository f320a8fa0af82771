-- ===== src/Recorder/Lines.antt =====
-- What varnishlog writes is read back, and a log is read piece by piece.
use vcltest.Base.{
  ◌≡◌, refl, ap, ◌∙◌, List, [], ◌∷◌, ◌++◌, suc, some, arith, length, drop, filter, filter-append,
  Bool-cases, inl, inr, ◌+◌,
}
use vcltest.Base.Int.{ℤ}
use vcltest.Base.Text.{
  Text, text_eq, text_beq, codes, fields, split, lines, atoi, IsWord, fields-words, split_last,
  split_at, Lacks, spaced, split-append, is_empty,
}
use vcltest.Recorder.{
  Message, vcl_trace, parse_line, parse_lines, parse_messages, classify, is_vcl, is_other,
  get_vcl_messages_since, get_messages_since,
}
use vcltest.Recorder.Parser.{parse_location, parse_vcl_trace}

-- The location "config.line.column".
abbrev pub location : Text → Text → Text → Text
location c l k = c ++ b'.' ∷ (l ++ b'.' ∷ k)

-- A line of varnishlog with a VCL_trace record.
abbrev pub trace_line : Text → Text → Text → Text → Text → Text → Text
trace_line mark name id c l k = mark ++ spaced (codes "VCL_trace" ∷ name ∷ id ∷ location c l k ∷ [])

split-location :
    (c l k : Text)
    → Lacks b'.' c
    → Lacks b'.' l
    → Lacks b'.' k
    → split (location c l k) b'.' ≡ c ∷ l ∷ k ∷ []
split-location c l k hc hl hk =
    rw (split_at b'.' c (l ++ b'.' ∷ k) hc, split_at b'.' l k hl, split_last b'.' k hk) refl

IsWord-vcl_trace : IsWord (codes "VCL_trace")
IsWord-vcl_trace =
    ((λ e. cc), (refl, (refl, (refl, (refl, (refl, (refl, (refl, (refl, (refl, tt))))))))))

parse_line_trace :
    (line : Text) (mark name id loc : Text)
    → fields line ≡ mark ∷ codes "VCL_trace" ∷ name ∷ id ∷ loc ∷ []
    → ((parse_line line).type ≡ vcl_trace)
      × ((parse_line line).fields ≡ mark ∷ codes "VCL_trace" ∷ name ∷ id ∷ loc ∷ [])
unfolding parse_line
parse_line_trace line mark name id loc e =
    rw (e, parse_line) (unfold classify text_beq in (refl, refl))

read_location :
    (c l k : Text) {config line column : ℤ}
    → Lacks b'.' c × Lacks b'.' l × Lacks b'.' k
    → (atoi c ≡ some config) × (atoi l ≡ some line) × (atoi k ≡ some column)
    → parse_location (split (location c l k) b'.') ≡ some (config, line, column)
read_location c l k (dc, dl, dk) (ec, el, ek) =
    rw (split-location c l k dc dl dk) (unfold parse_location in rw (ec, el, ek) refl)

read_trace :
    (msg : Message) (mark name id loc : Text) {config line column : ℤ}
    → msg.type ≡ vcl_trace
    → msg.fields ≡ mark ∷ codes "VCL_trace" ∷ name ∷ id ∷ loc ∷ []
    → parse_location (split loc b'.') ≡ some (config, line, column)
    → parse_vcl_trace msg
      ≡ some (record {
        vcl_name = name;
        trace_id = id;
        source_location = loc;
        config = config;
        line = line;
        column = column;
      })
unfolding parse_vcl_trace
read_trace msg mark name id loc t f e = rw (t, f) (rw e refl)

-- A VCL_trace line, whatever its words, is read back into its parts, with the three numbers of its
-- location.
pub parse_vcl_trace-trace_line :
    (mark name id c l k : Text) (config line column : ℤ)
    → IsWord mark
    → IsWord name
    → IsWord id
    → IsWord (location c l k)
    → Lacks b'.' c × Lacks b'.' l × Lacks b'.' k
    → (atoi c ≡ some config) × (atoi l ≡ some line) × (atoi k ≡ some column)
    → parse_vcl_trace (parse_line (trace_line mark name id c l k))
      ≡ some (record {
        vcl_name = name;
        trace_id = id;
        source_location = location c l k;
        config = config;
        line = line;
        column = column;
      })
parse_vcl_trace-trace_line mark name id c l k config line column wm wn wi wl d e =
    let (t, f) =
      parse_line_trace (trace_line mark name id c l k) mark name id (location c l k)
        (fields-words mark _ wm (IsWord-vcl_trace, (wn, (wi, (wl, tt))))) in
    read_trace (parse_line (trace_line mark name id c l k)) mark name id (location c l k) t f
      (read_location c l k d e)

parse_lines-append : (xs ys : List Text) → parse_lines (xs ++ ys) ≡ parse_lines xs ++ parse_lines ys
unfolding parse_lines
parse_lines-append [] ys = refl
parse_lines-append (x ∷ xs) ys = elim (Bool-cases (is_empty x)) [
  | inl e ↦ rw e (parse_lines-append xs ys)
  | inr e ↦ elim (Bool-cases (is_other (parse_line x).type)) [
    | inl o ↦ rw (e, o) (parse_lines-append xs ys)
    | inr o ↦ rw (e, o) (ap (λ ms. parse_line x ∷ ms) (parse_lines-append xs ys))
  ]
]

lines-append : (before after : Text) → lines (before ++ b'\n' ∷ after) ≡ lines before ++ lines after
unfolding lines
lines-append before after = split-append b'\n' before after

drop-mark : (before after : Text) → drop (length before + 1) (before ++ b'\n' ∷ after) ≡ after
drop-mark [] after = refl
drop-mark (c ∷ before) after =
    let e : length (c ∷ before) + 1 ≡ suc (length before + 1) = omega arith in
    rw e (drop-mark before after)

-- What is read from a mark that stands behind a line end is exactly what was written after it: the
-- VCL messages of the whole log are those up to the mark, followed by those since the mark.
pub get_vcl_messages_since-mark :
    (before after : Text)
    → let log = before ++ b'\n' ∷ after in
      (old new : List Message) × (get_vcl_messages_since (some before) 0 ≡ some old)
      × (get_vcl_messages_since (some log) (length before + 1) ≡ some new)
      × (get_vcl_messages_since (some log) 0 ≡ some (old ++ new))
unfolding get_vcl_messages_since get_messages_since parse_messages
get_vcl_messages_since-mark before after = (
  filter is_vcl (parse_messages before),
  filter is_vcl (parse_messages after),
  refl,
  ap (λ t. some (filter is_vcl (parse_messages t))) (drop-mark before after),
  ap some (
      ap (filter is_vcl) (
        ap parse_lines (lines-append before after)
        ∙ parse_lines-append (lines before) (lines after))
      ∙ filter-append is_vcl (parse_messages before) (parse_messages after)),
)
