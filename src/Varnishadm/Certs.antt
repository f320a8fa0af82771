-- ===== src/Varnishadm/Certs.antt =====
-- The list of certificates that the mock prints, against what parseTLSCertList reads from it.
use vcltest.Base.{
  Bool, true, false, Option, none, some, List, [], ◌∷◌, ◌++◌, ℕ, zero, suc, ◌-◌, ◌≡◌, ◌⊎◌, inl, inr,
  ◌≢◌, refl, sym, ap, ◌∙◌, subst, append-nil, append_assoc, All, All-append, nat_beq, if◌then◌else◌,
  length, map,
}
use vcltest.Base.Text.{
  Text, codes, is_empty, fields, fields_then, IsWord, is_space, Lacks, words-Lacks, no_space-Lacks,
  spaced, join, join-spaced, lines, split-join, trim_space, trim_space-words,
}
use vcltest.Varnishadm.{spaces, pad}

fields-spaces : (k : ℕ) (t : Text) → fields (spaces k ++ t) ≡ fields t
unfolding fields vcltest.Base.Text.fields_from
fields-spaces zero t = refl
fields-spaces (suc k) t = fields-spaces k t

-- Words, filled up with spaces and followed by one more, are cut off as they are.
fields-padded_word :
    (k : ℕ) (w t : Text) → IsWord w → fields (w ++ (spaces k ++ 32 ∷ t)) ≡ w ∷ fields t
fields-padded_word zero w t h = fields_then w t h
fields-padded_word (suc k) w t h =
    fields_then w (spaces k ++ 32 ∷ t) h
    ∙ ap (λ fs. w ∷ fs) (fields-spaces k (32 ∷ t) ∙ fields-spaces 1 t)

fields-padded :
    (k : ℕ) (w : Text) (ws : List Text) (t : Text)
    → IsWord w
    → All IsWord ws
    → fields ((w ++ spaced ws) ++ (spaces k ++ 32 ∷ t)) ≡ w ∷ (ws ++ fields t)
unfolding spaced
fields-padded k w [] t h a =
    ap (λ s. fields (s ++ (spaces k ++ 32 ∷ t))) (append-nil w) ∙ fields-padded_word k w t h
fields-padded k w (v ∷ ws) t h (g, a) =
    ap fields (append_assoc w (32 ∷ (v ++ spaced ws)) (spaces k ++ 32 ∷ t))
    ∙ fields_then w ((v ++ spaced ws) ++ (spaces k ++ 32 ∷ t)) h
    ∙ ap (λ fs. w ∷ fs) (fields-padded k v ws t g a)

pub pad-append : (n : ℕ) (s t : Text) → pad n s ++ t ≡ s ++ (spaces (n - length s) ++ 32 ∷ t)
pad-append n s t =
    append_assoc s (spaces (n - length s) ++ codes " ") t
    ∙ ap (λ r. s ++ r) (append_assoc (spaces (n - length s)) (codes " ") t)

pub fields-pad_word : (n : ℕ) (w t : Text) → IsWord w → fields (pad n w ++ t) ≡ w ∷ fields t
fields-pad_word n w t h = ap fields (pad-append n w t) ∙ fields-padded_word _ w t h

pub fields-pad_words :
    (n : ℕ) (w : Text) (ws : List Text) (t : Text)
    → IsWord w
    → All IsWord ws
    → fields (pad n (join (w ∷ ws) (codes " ")) ++ t) ≡ w ∷ (ws ++ fields t)
fields-pad_words n w ws t h a =
    ap (λ s. fields (pad n s ++ t)) (join-spaced w ws)
    ∙ ap fields (pad-append n (w ++ spaced ws) t)
    ∙ fields-padded _ w ws t h a

spaces-Lacks : (k : ℕ) (t : Text) → Lacks b'\n' t → Lacks b'\n' (spaces k ++ 32 ∷ t)
spaces-Lacks zero t h = (refl, h)
spaces-Lacks (suc k) t h = (refl, spaces-Lacks k t h)

pub pad-Lacks : (n : ℕ) (s t : Text) → Lacks b'\n' s → Lacks b'\n' t → Lacks b'\n' (pad n s ++ t)
pad-Lacks n s t h k =
    subst (Lacks b'\n') (sym (pad-append n s t))
      (All-append (λ c. nat_beq c b'\n' ≡ false) s _ h (spaces-Lacks (n - length s) t k))

-- A text that ends with a word.
abbrev pub EndsWord : Text → Type 0
EndsWord t = (s : Text) × (v : Text) × IsWord v × (t ≡ s ++ v)

pub EndsWord-append : (u t : Text) → EndsWord t → EndsWord (u ++ t)
EndsWord-append u t (s, v, h, e) = (u ++ s, v, h, ap (λ r. u ++ r) e ∙ sym (append_assoc u s v))

pub trim_space-EndsWord : (w t : Text) → IsWord w → EndsWord t → trim_space (w ++ t) ≡ w ++ t
trim_space-EndsWord w t h (s, v, k, e) = rw e (trim_space-words w s v h k)
