-- ===== src/Base/Text/Fields.antt =====
-- Cutting a text at white space and at a separator, and the laws of both.
use Prim.Native.Nat.{ℕ}
use mathlib.Core.Path.{◌≡◌, refl, ap}
use mathlib.Core.Logic.{◌≢◌, inl, inr}
use mathlib.Core.Bool.{Bool, true, false, ◌&&◌, ◌||◌}
use mathlib.Core.List.{List, [], ◌∷◌, ◌++◌, reverse, append-nil, append_assoc}
use vcltest.Base.Tests.{leb, nat_beq, nat_beq_iff, if◌then◌else◌, Bool-cases}
use vcltest.Base.Lists.{All}

abbrev pub is_space : ℕ → Bool
is_space c = nat_beq c 32 || (leb 9 c && leb c 13)

-- The word in hand joins the words, unless it is empty.
abbrev pub keep_word : List ℕ → List (List ℕ) → List (List ℕ)
keep_word [] ws = ws
keep_word (c ∷ w) ws = (c ∷ w) ∷ ws

-- `strings.Fields`: the second argument is the word in hand.
unfoldable pub fields_from : List ℕ → List ℕ → List (List ℕ)
fields_from [] w = keep_word w []
fields_from (c ∷ s) w = elim (is_space c) [
  | true ↦ keep_word w (fields_from s [])
  | false ↦ fields_from s (w ++ c ∷ [])
]

unfoldable pub fields : List ℕ → List (List ℕ)
unfolding fields_from
fields s = fields_from s []

-- `strings.Split` at one byte.
unfoldable pub split_from : ℕ → List ℕ → List ℕ → List (List ℕ)
split_from sep [] w = w ∷ []
split_from sep (c ∷ s) w = elim (nat_beq c sep) [
  | true ↦ w ∷ split_from sep s []
  | false ↦ split_from sep s (w ++ c ∷ [])
]

unfoldable pub split : List ℕ → ℕ → List (List ℕ)
unfolding split_from
split s sep = split_from sep s []

unfoldable pub lines : List ℕ → List (List ℕ)
unfolding split
lines s = split s b'\n'

-- `strings.Join(parts, sep)`
unfoldable pub join : List (List ℕ) → List ℕ → List ℕ
join [] sep = []
join (p ∷ []) sep = p
join (p ∷ q ∷ ps) sep = p ++ (sep ++ join (q ∷ ps) sep)

abbrev pub trim_left : List ℕ → List ℕ
trim_left [] = []
trim_left (c ∷ s) = if is_space c then trim_left s else c ∷ s

-- `strings.TrimSpace`
unfoldable pub trim_space : List ℕ → List ℕ
trim_space s = reverse (trim_left (reverse (trim_left s)))

-- A word: not empty, and free of white space.
abbrev pub IsWord : List ℕ → Type 0
IsWord w = (w ≢ []) × All (λ c. is_space c ≡ false) w

abbrev pub Lacks : ℕ → List ℕ → Type 0
Lacks sep s = All (λ c. nat_beq c sep ≡ false) s

-- Every word behind one space.
unfoldable pub spaced : List (List ℕ) → List ℕ
spaced [] = []
spaced (w ∷ ws) = 32 ∷ (w ++ spaced ws)

pub fields_from-append :
    (w s v : List ℕ)
    → All (λ c. is_space c ≡ false) w
    → fields_from (w ++ s) v ≡ fields_from s (v ++ w)
unfolding fields_from
fields_from-append [] s v h = rw append-nil
fields_from-append (c ∷ w) s v (p, h) =
    rw (p, fields_from) (rw (fields_from-append w s (v ++ c ∷ []) h, append_assoc))

pub keep-word : (w : List ℕ) (ws : List (List ℕ)) → w ≢ [] → keep_word w ws ≡ w ∷ ws
keep-word [] ws h = absurd (h refl)
keep-word (c ∷ w) ws h = refl

fields_from-spaced :
    (w : List ℕ) (ws : List (List ℕ)) → w ≢ [] → All IsWord ws → fields_from (spaced ws) w ≡ w ∷ ws
unfolding fields_from spaced
fields_from-spaced w [] h a = keep-word w [] h
fields_from-spaced w (v ∷ ws) h ((p, q), a) =
    rw (fields_from-append v (spaced ws) [] q, fields_from-spaced v ws p a) (keep-word w _ h)

-- Words behind single spaces are cut back into the words.
pub fields-words :
    (w : List ℕ) (ws : List (List ℕ)) → IsWord w → All IsWord ws → fields (w ++ spaced ws) ≡ w ∷ ws
unfolding fields
fields-words w ws (p, q) a =
    rw (fields_from-append w (spaced ws) [] q) (fields_from-spaced w ws p a)

pub fields_word : (w : List ℕ) → IsWord w → fields w ≡ w ∷ []
unfolding spaced
fields_word w h = rw (append-nil w) at (fields-words w [] h tt)

split_from-append :
    (sep : ℕ) (w s v : List ℕ) → Lacks sep w → split_from sep (w ++ s) v ≡ split_from sep s (v ++ w)
unfolding split_from
split_from-append sep [] s v h = rw append-nil
split_from-append sep (c ∷ w) s v (p, h) =
    rw (p, split_from) (rw (split_from-append sep w s (v ++ c ∷ []) h, append_assoc))

-- A text without the separator is one part.
pub split_last : (sep : ℕ) (w : List ℕ) → Lacks sep w → split w sep ≡ w ∷ []
unfolding split split_from
split_last sep w h = rw (append-nil w) at (split_from-append sep w [] [] h)

-- The first separator ends the first part.
pub split_at : (sep : ℕ) (w s : List ℕ) → Lacks sep w → split (w ++ sep ∷ s) sep ≡ w ∷ split s sep
unfolding split
split_at sep w s h = rw (split_from-append sep w (sep ∷ s) [] h) step
  where
    step : split_from sep (sep ∷ s) w ≡ w ∷ split_from sep s []
    step = rw ((nat_beq_iff sep sep).1 refl, split_from)

split_from_sep : (sep : ℕ) (s w : List ℕ) → split_from sep (sep ∷ s) w ≡ w ∷ split_from sep s []
unfolding split_from
split_from_sep sep s w = rw ((nat_beq_iff sep sep).1 refl, split_from) refl

split_from-split :
    (sep : ℕ) (a b w : List ℕ)
    → split_from sep (a ++ sep ∷ b) w ≡ split_from sep a w ++ split_from sep b []
unfolding split_from
split_from-split sep [] b w = split_from_sep sep b w
split_from-split sep (c ∷ a) b w = elim (Bool-cases (nat_beq c sep)) [
  | inl e ↦ rw (e, split_from) (ap (λ ps. w ∷ ps) (split_from-split sep a b []))
  | inr e ↦ rw (e, split_from) (split_from-split sep a b (w ++ c ∷ []))
]

-- A separator cuts any text in two.
pub split-append : (sep : ℕ) (a b : List ℕ) → split (a ++ sep ∷ b) sep ≡ split a sep ++ split b sep
unfolding split
split-append sep a b = split_from-split sep a b []
