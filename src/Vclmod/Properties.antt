-- ===== src/Vclmod/Properties.antt =====
-- The properties of a backend that was given an address.
use vcltest.Base.{
  Bool, true, false, not, ◌≡◌, ◌≢◌, refl, ap, sym, ◌∙◌, inl, inr, ◌&&◌, List, [], ◌∷◌, ◌++◌, ◌==◌,
  eq_iff, map, if◌then◌else◌, arith, All, Any, All-append, filter, filter-append, Bool-cases,
  append-nil, subst, if_false,
}
use vcltest.Base.Text.{Text, text_eq, codes, text_beq}
use vcltest.Harness.{BackendAddress}
use vcltest.Vclmod.{
  BackendProperty, string_literal, set_property, has_property, add_missing, with_address,
}

-- The property has the value, if it has the name.
abbrev pub HasValue : Text → Text → BackendProperty → Type 0
HasValue name value p = (p.name ≡ name) → p.value ≡ string_literal value

abbrev pub is_other : BackendProperty → Bool
is_other p = not (p.name == codes "host") && not (p.name == codes "port")

abbrev pub IsNamed : Text → BackendProperty → Type 0
IsNamed name p = p.name ≡ name

host-ne-port : codes "host" ≢ codes "port"
unfolding text_beq
host-ne-port e = absurd (cc ((eq_iff (codes "host") (codes "port")).1 e))

set_property-host :
    (a : BackendAddress) (p : BackendProperty) → HasValue (codes "host") a.host (set_property a p)
set_property-host a p = ground (arith, eq_iff p.name (codes "host"), eq_iff p.name (codes "port"))

set_property-port :
    (a : BackendAddress) (p : BackendProperty) → HasValue (codes "port") a.port (set_property a p)
set_property-port a p = ground (arith, eq_iff p.name (codes "host"), eq_iff p.name (codes "port"))

name-set_property : (a : BackendAddress) (p : BackendProperty) → (set_property a p).name ≡ p.name
name-set_property a p = ground arith

set_property-other :
    (a : BackendAddress) (p : BackendProperty) → is_other p ≡ true → set_property a p ≡ p
set_property-other a p h = ground arith

All-map :
    (P : BackendProperty → Type 0) (a : BackendAddress) (ps : List BackendProperty)
    → ((p : BackendProperty) → P (set_property a p))
    → All P (map (set_property a) ps)
All-map P a [] h = tt
All-map P a (p ∷ ps) h = (h p, All-map P a ps h)

All-add_missing :
    (P : BackendProperty → Type 0) (name value : Text) (found : Bool) (ps : List BackendProperty)
    → All P ps
    → P (record { name = name; value = string_literal value })
    → All P (add_missing name value found ps)
All-add_missing P name value true ps h p = h
All-add_missing P name value false ps h p = All-append P ps _ h (p, tt)

Any-append_left :
    (P : BackendProperty → Type 0) (xs ys : List BackendProperty) → Any P xs → Any P (xs ++ ys)
Any-append_left P [] ys h = absurd h
Any-append_left P (x ∷ xs) ys (inl p) = inl p
Any-append_left P (x ∷ xs) ys (inr h) = inr (Any-append_left P xs ys h)

Any-append_right :
    (P : BackendProperty → Type 0) (xs ys : List BackendProperty) → Any P ys → Any P (xs ++ ys)
Any-append_right P [] ys h = h
Any-append_right P (x ∷ xs) ys h = inr (Any-append_right P xs ys h)

Any-add_missing :
    (P : BackendProperty → Type 0) (name value : Text) (found : Bool) (ps : List BackendProperty)
    → Any P ps
    → Any P (add_missing name value found ps)
Any-add_missing P name value true ps h = h
Any-add_missing P name value false ps h = Any-append_left P ps _ h

Any-IsNamed :
    (name : Text) (a : BackendAddress) (ps : List BackendProperty)
    → has_property name ps ≡ true
    → Any (IsNamed name) (map (set_property a) ps)
Any-IsNamed name a [] h = absurd cc
Any-IsNamed name a (p ∷ ps) h = elim (Bool-cases (p.name == name)) [
  | inl e ↦ inl (name-set_property a p ∙ (eq_iff p.name name).0 e)
  | inr e ↦ inr (Any-IsNamed name a ps (ground arith))
]

-- A property that was looked for is there afterwards.
Any-add-IsNamed :
    (name value : Text) (qs ps : List BackendProperty)
    → (has_property name ps ≡ true → Any (IsNamed name) qs)
    → Any (IsNamed name) (add_missing name value (has_property name ps) qs)
Any-add-IsNamed name value qs ps h = elim (Bool-cases (has_property name ps)) [
  | inl e ↦ subst (λ b. Any (IsNamed name) (add_missing name value b qs)) (sym e) (h e)
  | inr e ↦
      subst (λ b. Any (IsNamed name) (add_missing name value b qs)) (sym e)
        (Any-append_right (IsNamed name) qs _ (inl refl))
]

filter-map_other :
    (a : BackendAddress) (ps : List BackendProperty)
    → filter is_other (map (set_property a) ps) ≡ filter is_other ps
filter-map_other a [] = refl
filter-map_other a (p ∷ ps) =
    let same : is_other (set_property a p) ≡ is_other p =
      ap (λ n. not (n == codes "host") && not (n == codes "port")) (name-set_property a p) in
    let rest = filter-map_other a ps in
    elim (Bool-cases (is_other p)) [
      | inl e ↦
          subst (λ q. filter is_other (q ∷ map (set_property a) ps) ≡ filter is_other (p ∷ ps))
            (sym (set_property-other a p e)) (ap (λ t. if is_other p then p ∷ t else t) rest)
      | inr e ↦ if_false _ _ _ (same ∙ e) ∙ rest ∙ sym (if_false _ _ _ e)
    ]

filter-add_missing :
    (name value : Text) (found : Bool) (ps : List BackendProperty)
    → is_other (record { name = name; value = string_literal value }) ≡ false
    → filter is_other (add_missing name value found ps) ≡ filter is_other ps
filter-add_missing name value true ps h = refl
filter-add_missing name value false ps h =
    filter-append is_other ps _
    ∙ ap (λ t. filter is_other ps ++ t) (if_false _ _ _ h)
    ∙ append-nil (filter is_other ps)

-- A backend that gets an address has a host and a port, and every host and every port it has is that of
-- the address; all its other properties stay as they were and in their order.
pub with_address_correct :
    (a : BackendAddress) (ps : List BackendProperty)
    → let qs = with_address a ps in
      All (HasValue (codes "host") a.host) qs
      × All (HasValue (codes "port") a.port) qs
      × Any (IsNamed (codes "host")) qs
      × Any (IsNamed (codes "port")) qs
      × (filter is_other qs ≡ filter is_other ps)
unfolding with_address text_beq
with_address_correct a ps =
    let H = codes "host" in
    let Q = codes "port" in
    let first = add_missing H a.host (has_property H ps) (map (set_property a) ps) in
    (
      All-add_missing (HasValue H a.host) Q a.port _ first
          (All-add_missing (HasValue H a.host) H a.host _ _
            (All-map (HasValue H a.host) a ps (set_property-host a)) (λ e. refl))
          (λ e. absurd (host-ne-port (sym e))),
      All-add_missing (HasValue Q a.port) Q a.port _ first
          (All-add_missing (HasValue Q a.port) H a.host _ _
            (All-map (HasValue Q a.port) a ps (set_property-port a)) (λ e. absurd (host-ne-port e)))
          (λ e. refl),
      Any-add_missing (IsNamed H) Q a.port _ first
          (Any-add-IsNamed H a.host (map (set_property a) ps) ps (Any-IsNamed H a ps)),
      Any-add-IsNamed Q a.port first ps
          (λ h. Any-add_missing (IsNamed Q) H a.host _ _ (Any-IsNamed Q a ps h)),
      filter-add_missing Q a.port _ first refl
          ∙ filter-add_missing H a.host (has_property H ps) (map (set_property a) ps) refl
          ∙ filter-map_other a ps,
    )
