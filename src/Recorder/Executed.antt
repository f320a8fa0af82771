-- ===== src/Recorder/Executed.antt =====
-- The sorting loops of `GetExecutedLinesByConfig`: a sorted list of the same lines.
use vcltest.Base.{
  false, true, ◌≡◌, refl, ap, sym, ◌↔◌, inl, inr, List, [], ◌∷◌, ℕ, zero, suc, In, All, Distinct,
  arith, length, Bool-cases, In-All, All-In,
}
use vcltest.Base.Int.{ℤ, int_eq, ◌≤ℤ◌, ◌<ℤ◌, ltb_ℤ, eq_of_parts}
use vcltest.Recorder.Parser.{exchange, exchange_sort}

-- Every line is below all later ones.
abbrev pub Ascending : List ℤ → Type 0
Ascending [] = Unit
Ascending (x ∷ xs) = All (λ y. x <ℤ y) xs × Ascending xs

exchange-swap :
    (cur y : ℤ) (ys : List ℤ)
    → ltb_ℤ y cur ≡ true
    → exchange cur (y ∷ ys) ≡ ((exchange y ys).0, cur ∷ (exchange y ys).1)
unfolding exchange
exchange-swap cur y ys e = rw e refl

exchange-keep :
    (cur y : ℤ) (ys : List ℤ)
    → ltb_ℤ y cur ≡ false
    → exchange cur (y ∷ ys) ≡ ((exchange cur ys).0, y ∷ (exchange cur ys).1)
unfolding exchange
exchange-keep cur y ys e = rw e refl

-- A property of the inner loop's result, by the two ways that a round goes.
module _ {κ} (P : (cur : ℤ) (ys : List ℤ) → ℤ × List ℤ → Type κ) where
  exchange_induction :
      ((cur : ℤ) → P cur [] (cur, []))
      → ((cur y : ℤ) (ys : List ℤ)
          → y <ℤ cur
          → P y ys (exchange y ys)
          → P cur (y ∷ ys) ((exchange y ys).0, cur ∷ (exchange y ys).1))
      → ((cur y : ℤ) (ys : List ℤ)
          → cur ≤ℤ y
          → P cur ys (exchange cur ys)
          → P cur (y ∷ ys) ((exchange cur ys).0, y ∷ (exchange cur ys).1))
      → (ys : List ℤ) (cur : ℤ) → P cur ys (exchange cur ys)
  exchange_induction done swap keep [] cur = unfold exchange in done cur
  exchange_induction done swap keep (y ∷ ys) cur = elim (Bool-cases (ltb_ℤ y cur)) [
    | inl e ↦
        rw (exchange-swap cur y ys e)
          (swap cur y ys (ground arith) (exchange_induction done swap keep ys y))
    | inr e ↦
        rw (exchange-keep cur y ys e)
          (keep cur y ys (ground arith) (exchange_induction done swap keep ys cur))
  ]

Distinct-swap : (a b : ℤ) (xs : List ℤ) → Distinct (a ∷ b ∷ xs) → Distinct (b ∷ a ∷ xs)
Distinct-swap a b xs (na, (nb, d)) =
    (λ h. elim h [ inl e ↦ na (inl (sym e)) | inr m ↦ nb m ], (λ m. na (inr m), d))

-- One more line, `cur`, behind the least.
Distinct-insert :
    (m y cur : ℤ) (r ys : List ℤ)
    → ((z : ℤ) → In z (m ∷ r) ↔ In z (y ∷ ys))
    → (Distinct (y ∷ ys) → Distinct (m ∷ r))
    → Distinct (cur ∷ y ∷ ys)
    → Distinct (m ∷ cur ∷ r)
Distinct-insert m y cur r ys same apart (ncur, d) = (
  λ h. elim h [ inl e ↦ ncur ((same cur).0 (inl (sym e))) | inr i ↦ (apart d).0 i ],
  (λ i. ncur ((same cur).0 (inr i)), (apart d).1),
)

-- The inner loop leaves the least line in front, and keeps the lines.
record Exchanged (cur : ℤ) (ys : List ℤ) (r : ℤ × List ℤ) : Type 0 where
  size : length r.1 ≡ length ys
  below : r.0 ≤ℤ cur
  least : All (λ y. r.0 ≤ℤ y) r.1
  same : (z : ℤ) → In z (r.0 ∷ r.1) ↔ In z (cur ∷ ys)
  apart : Distinct (cur ∷ ys) → Distinct (r.0 ∷ r.1)

exchange-Exchanged : (cur : ℤ) (ys : List ℤ) → Exchanged cur ys (exchange cur ys)
exchange-Exchanged cur ys =
    exchange_induction Exchanged
      (λ cur. record {
        size = refl;
        below = omega arith;
        least = tt;
        same = λ z. (λ h. h, λ h. h);
        apart = λ d. d;
      })
      (λ cur y ys lt p. record {
        size = ap suc p.size;
        below = omega (arith, p.below);
        least = (omega (arith, p.below), p.least);
        same = λ z. ground (arith, p.same z);
        apart = Distinct-insert _ y cur _ ys p.same p.apart;
      })
      (λ cur y ys le p. record {
        size = ap suc p.size;
        below = p.below;
        least = (omega (arith, p.below), p.least);
        same = λ z. ground (arith, p.same z);
        apart = λ d. Distinct-insert _ cur y _ ys p.same p.apart (Distinct-swap cur y ys d);
      })
      ys cur

-- What the sort promises: the same lines, in order.
pub record IsSortOf (xs r : List ℤ) : Type 0 where
  pub same : (z : ℤ) → In z r ↔ In z xs
  pub ascending : Ascending r

-- A least line that is none of the others is below them.
strictly_below : (m : ℤ) (r : List ℤ) → All (λ y. m ≤ℤ y) r → ¬ In m r → All (λ y. m <ℤ y) r
strictly_below m [] h n = tt
strictly_below m (y ∷ r) (h, hs) n = (
  ground (arith, λ (e : m ≡ y). n (inl e), eq_of_parts m y),
  strictly_below m r hs (λ i. n (inr i)),
)

-- With as many rounds as there are lines, distinct lines come out in ascending order.
pub exchange_sort-IsSortOf :
    (n : ℕ) (xs : List ℤ) → length xs ≡ n → Distinct xs → IsSortOf xs (exchange_sort n xs)
unfolding exchange_sort
exchange_sort-IsSortOf zero [] e d = record { same = λ z. (λ h. h, λ h. h); ascending = tt }
exchange_sort-IsSortOf zero (x ∷ xs) e d = absurd (omega arith)
exchange_sort-IsSortOf (suc n) [] e d = record { same = λ z. (λ h. h, λ h. h); ascending = tt }
exchange_sort-IsSortOf (suc n) (x ∷ xs) e d =
    let p = exchange-Exchanged x xs in
    let ih = exchange_sort-IsSortOf n (exchange x xs).1 (omega (arith, p.size)) (p.apart d).1 in
    record {
      same = λ z. ground (arith, p.same z, ih.same z);
      ascending = (
        In-All _ _ λ a m. All-In _ _ (strictly_below _ _ p.least (p.apart d).0) ((ih.same a).0 m),
        ih.ascending,
      );
    }
