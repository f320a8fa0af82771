-- ===== src/Base/Map.antt =====
-- Go's `map` as an association list. The order of the entries stands for the order in which a
-- `range` loop happens to visit them: what holds for every list holds for every such order.
use vcltest.Base.Tests.{Eq, ◌==◌, eq_iff, eq_self, if◌then◌else◌, Bool-cases}
use vcltest.Base.Lists.{In, Distinct}
use native.Mathlib.Omega.{arith}
use mathlib.Core.Path.{◌≡◌, refl, sym}
use mathlib.Core.Logic.{◌⊎◌, ◌↔◌, inl, inr}
use mathlib.Core.Bool.{Bool, true, false}
use mathlib.Core.Option.{Option, none, some}
use mathlib.Core.List.{List, [], ◌∷◌}

abbrev pub Map : Type 0 → Type 0 → Type 0
Map K V = List (K × V)

abbrev pub keys : {K V : Type 0} → Map K V → List K
keys [] = []
keys ((k, v) ∷ m) = k ∷ keys m

abbrev pub is_some : {V : Type 0} → Option V → Bool
is_some none = false
is_some (some v) = true

-- `m[k]` where the zero value `d` stands for a missing key.
abbrev pub get_or : {V : Type 0} → V → Option V → V
get_or d none = d
get_or d (some v) = v

pub get_or-if :
    {V : Type 0} (b : Bool) (d x : V) (o : Option V)
    → get_or d (if b then some x else o) ≡ (if b then x else get_or d o)
get_or-if true d x o = refl
get_or-if false d x o = refl

module _ {K V : Type 0} ⦃e : Eq K⦄ where
  -- `v, ok := m[k]`
  unfoldable pub lookup : K → Map K V → Option V
  lookup k [] = none
  lookup k ((j, v) ∷ m) = if j == k then some v else lookup k m

  -- `m[k] = v`
  unfoldable pub insert : K → V → Map K V → Map K V
  insert k v [] = (k, v) ∷ []
  insert k v ((j, w) ∷ m) = if j == k then (j, v) ∷ m else (j, w) ∷ insert k v m

  -- `delete(m, k)`
  unfoldable pub remove : K → Map K V → Map K V
  remove k [] = []
  remove k ((j, w) ∷ m) = let rest = remove k m in if j == k then rest else (j, w) ∷ rest

  pub lookup-cons :
      (k j : K) (v : V) (m : Map K V)
      → lookup k ((j, v) ∷ m) ≡ (if j == k then some v else lookup k m)
  unfolding lookup
  lookup-cons k j v m = refl

  pub lookup-insert :
      (key other : K) (v : V) (m : Map K V)
      → lookup other (insert key v m) ≡ (if key == other then some v else lookup other m)
  unfolding lookup insert
  lookup-insert key other v [] = refl
  lookup-insert key other v ((first, w) ∷ m) =
      ground
        (arith, eq_iff key other, eq_iff first key, eq_iff first other, lookup-insert key other v m)

  pub lookup-remove :
      (k j : K) (m : Map K V) → lookup j (remove k m) ≡ (if k == j then none else lookup j m)
  unfolding lookup remove
  lookup-remove k j [] = ground arith
  lookup-remove k j ((i, w) ∷ m) =
      ground (arith, eq_iff k j, eq_iff i k, eq_iff i j, lookup-remove k j m)

  pub lookup-insert_self : (k : K) (v : V) (m : Map K V) → lookup k (insert k v m) ≡ some v
  lookup-insert_self k v m = simp (lookup-insert, eq_self)

  pub lookup-In : (k : K) (m : Map K V) (v : V) → lookup k m ≡ some v → In k (keys m)
  unfolding lookup
  lookup-In k [] v h = cc
  lookup-In k ((j, w) ∷ m) v h = elim (Bool-cases (j == k)) [
    | inl same ↦ inl (sym ((eq_iff j k).0 same))
    | inr other ↦ inr (lookup-In k m v (ground arith))
  ]

  pub lookup-none : (k : K) (m : Map K V) → ¬ In k (keys m) → lookup k m ≡ none
  unfolding lookup
  lookup-none k [] h = refl
  lookup-none k ((j, w) ∷ m) h = elim (Bool-cases (j == k)) [
    | inl same ↦ absurd (h (inl (sym ((eq_iff j k).0 same))))
    | inr other ↦ rw other (lookup-none k m (λ x. h (inr x)))
  ]

  -- With distinct keys an entry is what its key looks up.
  pub lookup-entry :
      (m : Map K V) (k : K) (v : V) → Distinct (keys m) → In (k, v) m → lookup k m ≡ some v
  unfolding lookup
  lookup-entry [] k v d h = elim h [ ]
  lookup-entry ((j, w) ∷ m) k v d (inl q) = ground (arith, eq_iff j k)
  lookup-entry ((j, w) ∷ m) k v (n, d) (inr h) = elim (Bool-cases (j == k)) [
    | inl same ↦ absurd (n (lookup-In j m v (rw ((eq_iff j k).0 same) (lookup-entry m k v d h))))
    | inr other ↦ rw other (lookup-entry m k v d h)
  ]

  pub In-keys-insert :
      (k : K) (v : V) (m : Map K V) (j : K) → In j (keys (insert k v m)) ↔ ((k ≡ j) ⊎ In j (keys m))
  unfolding insert
  In-keys-insert k v [] j = ground arith
  In-keys-insert k v ((i, w) ∷ m) j = ground (arith, In-keys-insert k v m j, eq_iff i k)

  pub keys-insert-Distinct :
      (k : K) (v : V) (m : Map K V) → Distinct (keys m) → Distinct (keys (insert k v m))
  unfolding insert
  keys-insert-Distinct k v [] d = (λ h. h, tt)
  keys-insert-Distinct k v ((i, w) ∷ m) (n, d) = elim (Bool-cases (i == k)) [
    | inl same ↦ rw same (n, d)
    | inr other ↦ rw other (
      λ h. elim ((In-keys-insert k v m i).0 h) [
        | inl e ↦ absurd (cc ((eq_iff i k).1 (sym e), other))
        | inr x ↦ n x
      ],
      keys-insert-Distinct k v m d,
    )
  ]

  pub is_some-lookup_iff : (k : K) (m : Map K V) → (is_some (lookup k m) ≡ true) ↔ In k (keys m)
  unfolding lookup
  is_some-lookup_iff k [] = (λ h. cc, λ h. absurd h)
  is_some-lookup_iff k ((j, w) ∷ m) = ground (arith, is_some-lookup_iff k m, eq_iff j k)
