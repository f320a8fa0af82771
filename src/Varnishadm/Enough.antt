-- ===== src/Varnishadm/Enough.antt =====
-- The loop of parseVCLShow without its bound: the fuel of Show.antt is enough.
use vcltest.Base.{
  Bool, Option, none, some, [], ◌∷◌, ℕ, zero, suc, ◌+◌, ◌^◌, ◌≤◌, ◌≡◌, refl, sym, ap, ◌∙◌, length,
  drop, take, leb, if◌then◌else◌, arith, Bool-cases, inl, inr,
}
use vcltest.Base.Int.{ℤ, pos, negsuc}
use vcltest.Base.Text.{Text, atoi}
use vcltest.Varnishadm.Show.{
  Entries, shown, panics, and_then, entry_of, span, in_line, take_content, read_entry, read_line,
  read_cut, match_header, parse_from,
}

-- Two ways to read on agree on every text up to a length.
abbrev Agree : ℕ → (ℕ → Text → Entries) → (ℕ → Text → Entries) → Type 0
Agree n k l = (at : ℕ) (s : Text) → length s ≤ n → k at s ≡ l at s

length-drop_le : (n : ℕ) (s : Text) → length (drop n s) ≤ length s
length-drop_le zero s = omega arith
length-drop_le (suc n) [] = omega arith
length-drop_le (suc n) (c ∷ s) = omega (arith, length-drop_le n s)

span-length : (p : ℕ → Bool) (s : Text) → length (span p s).1 ≤ length s
unfolding span
span-length p [] = omega arith
span-length p (c ∷ s) = elim (Bool-cases (p c)) [
  | inl y ↦ rw y (omega (arith, span-length p s))
  | inr n ↦ rw n (omega arith)
]

-- What follows a line is shorter than the text that starts with it.
rest_shorter : (p : ℕ → Bool) (c : ℕ) (s : Text) → length (drop 1 (span p (c ∷ s)).1) ≤ length s
unfolding span
rest_shorter p c s = elim (Bool-cases (p c)) [
  | inl y ↦ rw y (omega (arith, length-drop_le 1 (span p s).1, span-length p s))
  | inr n ↦ rw n (omega arith)
]

module _ (k l : ℕ → Text → Entries) where
  take_content_same :
      (at : ℕ) (rest : Text) (id : ℤ) (name : Text) (size : ℤ)
      → Agree (length rest) k l
      → take_content k at rest id name size ≡ take_content l at rest id name size
  unfolding take_content
  take_content_same at rest id name (pos size) h =
      ap
        (λ e.
          if leb (2 ^ 63) (at + size)
          then panics
          else and_then (λ es. entry_of id (pos size) name (take size rest) ∷ es) e)
        (h (at + size) (drop size rest) (length-drop_le size rest))
  take_content_same at rest id name (negsuc n) h = refl

  read_entry_same :
      (at : ℕ) (rest : Text) (header : Text × Text × Text) (id size : Option ℤ)
      → Agree (length rest) k l
      → read_entry k at rest header id size ≡ read_entry l at rest header id size
  unfolding read_entry
  read_entry_same at rest (a, b, c) none n h = refl
  read_entry_same at rest (a, b, c) (some id) none h = refl
  read_entry_same at rest (a, b, c) (some id) (some n) h = take_content_same at rest id c n h

  read_line_same :
      (at : ℕ) (line tail : Text) (header : Option (Text × Text × Text))
      → Agree (length (drop 1 tail)) k l
      → read_line k at line tail header ≡ read_line l at line tail header
  unfolding read_line
  read_line_same at line tail none h = h (at + length line + 1) (drop 1 tail) (omega arith)
  read_line_same at line tail (some (a, b, c)) h =
      read_entry_same _ (drop 1 tail) (a, b, c) (atoi a) (atoi b) h

  read_cut_same :
      (at : ℕ) (cut : Text × Text)
      → Agree (length (drop 1 cut.1)) k l
      → read_cut k at cut ≡ read_cut l at cut
  unfolding read_cut
  read_cut_same at (line, tail) h = read_line_same at line tail (match_header line) h

parse_from-end : (n at : ℕ) → parse_from n at [] ≡ shown []
unfolding parse_from
parse_from-end zero at = refl
parse_from-end (suc n) at = refl

parse_from_same :
    (n m at : ℕ) (s : Text) → length s ≤ n → length s ≤ m → parse_from n at s ≡ parse_from m at s
unfolding parse_from
parse_from_same n m at [] h g = parse_from-end n at ∙ sym (parse_from-end m at)
parse_from_same zero m at (c ∷ s) h g = absurd (omega (arith, h))
parse_from_same (suc n) zero at (c ∷ s) h g = absurd (omega (arith, g))
parse_from_same (suc n) (suc m) at (c ∷ s) h g =
    read_cut_same (parse_from n) (parse_from m) at (span in_line (c ∷ s)) (λ p t b.
      parse_from_same n m p t (omega (arith, b, h, rest_shorter in_line c s))
        (omega (arith, b, g, rest_shorter in_line c s)))

-- The loop with the fuel that a text needs.
abbrev pub loop : ℕ → Text → Entries
unfolding parse_from
loop at s = parse_from (length s) at s

-- Any fuel from the length of the text on gives the same result, and this result is that of the loop
-- without a bound: at the end of the text no entry, before it the line at hand and the loop again.
pub parse_from-loop :
    (at : ℕ) (s : Text)
    → ((fuel : ℕ) → length s ≤ fuel → parse_from fuel at s ≡ loop at s)
      × (loop at [] ≡ shown [])
      × ((c : ℕ) → loop at (c ∷ s) ≡ read_cut loop at (span in_line (c ∷ s)))
unfolding parse_from
parse_from-loop at s = (
  λ fuel h. parse_from_same fuel (length s) at s h (omega arith),
  refl,
  λ c. read_cut_same (parse_from (length s)) loop at (span in_line (c ∷ s)) (λ p t b.
      parse_from_same (length s) (length t) p t (omega (arith, b, rest_shorter in_line c s))
        (omega arith)),
)
