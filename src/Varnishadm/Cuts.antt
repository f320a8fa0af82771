-- ===== src/Varnishadm/Cuts.antt =====
-- Cutting a text at an index and around a byte, for the header of Frame.antt.
use vcltest.Base.{
  some, [], ◌∷◌, ◌++◌, ℕ, zero, suc, ◌+◌, ◌≤◌, ◌≡◌, refl, sym, ap, arith, length, take, drop,
  get_elem?, take-append, drop-append,
}
use vcltest.Base.Text.{Text}

pub take_at : (n : ℕ) (xs ys : Text) → length xs ≡ n → take n (xs ++ ys) ≡ xs
take_at n xs ys h = rw (sym h) (take-append xs ys)

pub drop_at : (n : ℕ) (xs ys : Text) → length xs ≡ n → drop n (xs ++ ys) ≡ ys
drop_at n xs ys h = rw (sym h) (drop-append xs ys)

pub get_at :
    (n : ℕ) (xs : Text) (c : ℕ) (ys : Text) → length xs ≡ n → get_elem? (xs ++ c ∷ ys) n ≡ some c
get_at zero [] c ys h = refl
get_at (suc n) [] c ys h = absurd (omega (arith, h))
get_at zero (x ∷ xs) c ys h = absurd (omega (arith, h))
get_at (suc n) (x ∷ xs) c ys h = get_at n xs c ys (omega (arith, h))

pub get_elem?-drop : (n k m : ℕ) (s : Text) → n + k ≡ m → get_elem? (drop n s) k ≡ get_elem? s m
get_elem?-drop zero k m s h = ap (get_elem? s) (omega (arith, h))
get_elem?-drop (suc n) k m [] h = refl
get_elem?-drop (suc n) k zero (x ∷ s) h = absurd (omega (arith, h))
get_elem?-drop (suc n) k (suc m) (x ∷ s) h = get_elem?-drop n k m s (omega (arith, h))

-- A text is cut in two around the byte at an index.
pub cut_at : (n c : ℕ) (s : Text) → get_elem? s n ≡ some c → s ≡ take n s ++ c ∷ drop (suc n) s
cut_at n c [] h = absurd (cc h)
cut_at zero c (x ∷ s) h = cc h
cut_at (suc n) c (x ∷ s) h = ap (λ t. x ∷ t) (cut_at n c s h)

pub take-drop : (n : ℕ) (s : Text) → take n s ++ drop n s ≡ s
take-drop zero s = refl
take-drop (suc n) [] = refl
take-drop (suc n) (x ∷ s) = ap (λ t. x ∷ t) (take-drop n s)

pub length-take : (n : ℕ) (s : Text) → n ≤ length s → length (take n s) ≡ n
length-take zero s h = refl
length-take (suc n) [] h = absurd (omega (arith, h))
length-take (suc n) (x ∷ s) h = ap suc (length-take n s (omega (arith, h)))

pub length-drop : (n m : ℕ) (s : Text) → n + m ≡ length s → length (drop n s) ≡ m
length-drop zero m s h = omega (arith, h)
length-drop (suc n) m [] h = absurd (omega (arith, h))
length-drop (suc n) m (x ∷ s) h = length-drop n m s (omega (arith, h))

pub length-eq-zero : (s : Text) → length s ≡ 0 → s ≡ []
length-eq-zero [] h = refl
length-eq-zero (x ∷ s) h = absurd (omega (arith, h))

pub drop_past :
    (n : ℕ) (xs : Text) (c : ℕ) (ys : Text) → length xs ≡ n → drop (suc n) (xs ++ c ∷ ys) ≡ ys
drop_past zero [] c ys h = refl
drop_past (suc n) [] c ys h = absurd (omega (arith, h))
drop_past zero (x ∷ xs) c ys h = absurd (omega (arith, h))
drop_past (suc n) (x ∷ xs) c ys h = drop_past n xs c ys (omega (arith, h))
