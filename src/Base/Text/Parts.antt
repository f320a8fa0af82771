-- ===== src/Base/Text/Parts.antt =====
-- White space at the ends of a text, parts that are joined again, and fields behind one another.
use Prim.Native.Nat.{ℕ}
use mathlib.Core.Path.{◌≡◌, refl, ap, sym, ◌∙◌, subst}
use mathlib.Core.Logic.{inl, inr}
use mathlib.Core.Bool.{true, false}
use mathlib.Core.List.{
  List, [], ◌∷◌, ◌++◌, reverse, append-nil, append_assoc, reverse-append, reverse-reverse,
}
use vcltest.Base.Tests.{nat_beq, nat_beq_iff, Bool-cases}
use vcltest.Base.Lists.{All, All-append}
use vcltest.Base.Text.Fields.{
  is_space, fields_from, fields, split_from, split, join, trim_left, trim_space, IsWord, Lacks,
  spaced, fields_from-append, keep-word, split_last, split_at,
}

-- A text that is not empty has a last byte.
last_of : (c : ℕ) (s : List ℕ) → (u : List ℕ) × (d : ℕ) × (c ∷ s ≡ u ++ d ∷ [])
last_of c [] = ([], c, refl)
last_of c (b ∷ s) = let (u, d, e) = last_of b s in (c ∷ u, d, ap (λ t. c ∷ t) e)

last-All : (P : ℕ → Type 0) (u : List ℕ) (d : ℕ) → All P (u ++ d ∷ []) → P d
last-All P [] d (p, h) = p
last-All P (c ∷ u) d (p, h) = last-All P u d h

trim_left-byte : (c : ℕ) (s : List ℕ) → is_space c ≡ false → trim_left (c ∷ s) ≡ c ∷ s
trim_left-byte c s h = rw h refl

trim_space-ends :
    (c d : ℕ) (s : List ℕ)
    → is_space c ≡ false
    → is_space d ≡ false
    → trim_space (c ∷ (s ++ d ∷ [])) ≡ c ∷ (s ++ d ∷ [])
unfolding trim_space
trim_space-ends c d s h k =
    ap (λ t. reverse (trim_left (reverse t))) (trim_left-byte c (s ++ d ∷ []) h)
    ∙ ap (λ t. reverse (trim_left t)) (reverse-append (c ∷ s) (d ∷ []))
    ∙ ap reverse (trim_left-byte d (reverse (c ∷ s)) k)
    ∙ ap reverse (sym (reverse-append (c ∷ s) (d ∷ [])))
    ∙ reverse-reverse (c ∷ (s ++ d ∷ []))

-- A text between two words has no white space to trim.
pub trim_space-words :
    (w s v : List ℕ) → IsWord w → IsWord v → trim_space (w ++ (s ++ v)) ≡ w ++ (s ++ v)
trim_space-words [] s v (n, h) k = absurd (n refl)
trim_space-words (c ∷ w) s [] h (n, k) = absurd (n refl)
trim_space-words (c ∷ w) s (b ∷ v) (n, (p, h)) (m, k) =
    let (u, d, e) = last_of b v in
    rw (e, sym (append_assoc s u (d ∷ [])), sym (append_assoc w (s ++ u) (d ∷ [])))
      (trim_space-ends c d (w ++ (s ++ u)) p
        (last-All (λ x. is_space x ≡ false) u d (subst (All (λ x. is_space x ≡ false)) e k)))

other_byte : (c x : ℕ) → is_space c ≡ true → is_space x ≡ false → nat_beq x c ≡ false
other_byte c x h k = elim (Bool-cases (nat_beq x c)) [
  | inl e ↦ absurd (cc (h, k, ap is_space ((nat_beq_iff x c).0 e)))
  | inr e ↦ e
]

pub no_space-Lacks :
    (c : ℕ) (w : List ℕ) → is_space c ≡ true → All (λ x. is_space x ≡ false) w → Lacks c w
no_space-Lacks c [] h k = tt
no_space-Lacks c (x ∷ w) h (p, k) = (other_byte c x h p, no_space-Lacks c w h k)

-- Words behind one another with single spaces lack every other white space.
pub words-Lacks :
    (c : ℕ) (w : List ℕ) (ws : List (List ℕ))
    → is_space c ≡ true
    → nat_beq 32 c ≡ false
    → IsWord w
    → All IsWord ws
    → Lacks c (w ++ spaced ws)
unfolding spaced
words-Lacks c w [] h n (m, p) a = subst (Lacks c) (sym (append-nil w)) (no_space-Lacks c w h p)
words-Lacks c w (v ∷ ws) h n (m, p) (q, a) =
    All-append (λ x. nat_beq x c ≡ false) w (32 ∷ (v ++ spaced ws)) (no_space-Lacks c w h p)
      (n, words-Lacks c v ws h n q a)

-- A cut gives at least one part.
split_from_filled :
    (sep : ℕ) (s w : List ℕ) → (p : List ℕ) × (ps : List (List ℕ)) × (split_from sep s w ≡ p ∷ ps)
unfolding split_from
split_from_filled sep [] w = (w, [], refl)
split_from_filled sep (c ∷ s) w = elim (Bool-cases (nat_beq c sep)) [
  | inl e ↦ (w, split_from sep s [], rw (e, split_from) refl)
  | inr n ↦ rw (n, split_from) (split_from_filled sep s (w ++ c ∷ []))
]

join_filled :
    (p : List ℕ) (qs : List (List ℕ)) (sep : List ℕ)
    → ((q : List ℕ) × (rs : List (List ℕ)) × (qs ≡ q ∷ rs))
    → join (p ∷ qs) sep ≡ p ++ (sep ++ join qs sep)
unfolding join
join_filled p qs sep (q, rs, e) = rw e refl

join-split_from : (sep : ℕ) (s w : List ℕ) → join (split_from sep s w) (sep ∷ []) ≡ w ++ s
unfolding split_from join
join-split_from sep [] w = sym (append-nil w)
join-split_from sep (c ∷ s) w = elim (Bool-cases (nat_beq c sep)) [
  | inl e ↦
      rw (e, split_from)
        (join_filled w (split_from sep s []) (sep ∷ []) (split_from_filled sep s [])
          ∙ ap (λ t. w ++ sep ∷ t) (join-split_from sep s [])
          ∙ ap (λ t. w ++ t ∷ s) (sym ((nat_beq_iff c sep).0 e)))
  | inr n ↦ rw (n, split_from) (join-split_from sep s (w ++ c ∷ []) ∙ append_assoc w (c ∷ []) s)
]

-- The parts of a text, joined again.
pub join-split : (sep : ℕ) (s : List ℕ) → join (split s sep) (sep ∷ []) ≡ s
unfolding split
join-split sep s = join-split_from sep s []

split_from-Lacks : (sep : ℕ) (s w : List ℕ) → Lacks sep w → All (Lacks sep) (split_from sep s w)
unfolding split_from
split_from-Lacks sep [] w h = (h, tt)
split_from-Lacks sep (c ∷ s) w h = elim (Bool-cases (nat_beq c sep)) [
  | inl e ↦ rw (e, split_from) (h, split_from-Lacks sep s [] tt)
  | inr n ↦
      rw (n, split_from)
        (split_from-Lacks sep s (w ++ c ∷ [])
          (All-append (λ x. nat_beq x sep ≡ false) w (c ∷ []) h (n, tt)))
]

-- No part holds the separator.
pub split-Lacks : (sep : ℕ) (s : List ℕ) → All (Lacks sep) (split s sep)
unfolding split
split-Lacks sep s = split_from-Lacks sep s [] tt

-- A word in front of a space is the first field.
pub fields_then : (w s : List ℕ) → IsWord w → fields (w ++ 32 ∷ s) ≡ w ∷ fields s
unfolding fields fields_from
fields_then w s (n, h) = rw (fields_from-append w (32 ∷ s) [] h) (keep-word w (fields_from s []) n)

-- Parts without the separator, joined and cut again.
pub split-join :
    (sep : ℕ) (p : List ℕ) (ps : List (List ℕ))
    → Lacks sep p
    → All (Lacks sep) ps
    → split (join (p ∷ ps) (sep ∷ [])) sep ≡ p ∷ ps
unfolding join
split-join sep p [] h k = split_last sep p h
split-join sep p (q ∷ qs) h (g, k) =
    split_at sep p (join (q ∷ qs) (sep ∷ [])) h ∙ ap (λ t. p ∷ t) (split-join sep q qs g k)

pub join-spaced : (w : List ℕ) (ws : List (List ℕ)) → join (w ∷ ws) (32 ∷ []) ≡ w ++ spaced ws
unfolding join spaced
join-spaced w [] = sym (append-nil w)
join-spaced w (v ∷ ws) = ap (λ t. w ++ 32 ∷ t) (join-spaced v ws)
