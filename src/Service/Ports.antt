-- ===== src/Service/Ports.antt =====
-- The listing that Varnish prints of its sockets, against the port that `GetHTTPPort` takes from it.
use vcltest.Base.{
  true, false, List, [], ◌∷◌, ◌≡◌, ◌≢◌, ◌⊎◌, inl, inr, refl, sym, ap, ◌∙◌, subst, Bool-cases,
  if◌then◌else◌, if_true, if_false, All,
}
use vcltest.Base.Int.{ℤ, pos, leb_ℤ, int_beq, int_beq_iff}
use vcltest.Varnishadm.Commands.{ListenAddress}
use vcltest.Service.{
  contains_colon, find_ports, HttpPort, port, no_http_address, unanswered, choose_port,
}

-- A socket that accepts TCP, and one of these that is bound to an IPv4 address.
abbrev pub IsTcp : ListenAddress → Type 0
IsTcp a = leb_ℤ a.port (pos 0) ≡ false

abbrev pub IsIpv4 : ListenAddress → Type 0
IsIpv4 a = IsTcp a × (contains_colon a.address ≡ false)

-- The first socket of a list that satisfies `P`.
pub data IsFirst (P : ListenAddress → Type 0) (a : ListenAddress)
    : List ListenAddress → Type 0 where
  here : (as' : List ListenAddress) → P a → IsFirst P a (a ∷ as')
  there :
      (b : ListenAddress) (as' : List ListenAddress)
      → ¬ (P b)
      → IsFirst P a as'
      → IsFirst P a (b ∷ as')

abbrev pub HasNone : (ListenAddress → Type 0) → List ListenAddress → Type 0
HasNone P as' = All (λ a. ¬ (P a)) as'

-- The port: of the first IPv4 socket, without one of the first TCP socket.
abbrev pub IsPort : List ListenAddress → HttpPort → Type 0
IsPort as' (port p) =
    ((a : ListenAddress) × IsFirst IsIpv4 a as' × (p ≡ a.port))
    ⊎ ((a : ListenAddress) × IsFirst IsTcp a as' × (p ≡ a.port) × HasNone IsIpv4 as')
IsPort as' no_http_address = HasNone IsTcp as'
IsPort as' unanswered = ⊥

-- What the second number is: the fallback so far, or the first TCP port.
abbrev pub IsFallback : ℤ → List ListenAddress → ℤ → Type 0
IsFallback fallback as' q =
    ((fallback ≢ pos 0) × (q ≡ fallback))
    ⊎ ((fallback ≡ pos 0)
        × (((a : ListenAddress) × IsFirst IsTcp a as' × (q ≡ a.port))
            ⊎ (HasNone IsTcp as' × (q ≡ pos 0))))

abbrev pub Found : ℤ → List ListenAddress → ℤ × ℤ → Type 0
Found fallback as' r =
    ((a : ListenAddress) × IsFirst IsIpv4 a as' × (r.0 ≡ a.port))
    ⊎ (HasNone IsIpv4 as' × (r.0 ≡ pos 0) × IsFallback fallback as' r.1)

not-IsTcp : (a : ListenAddress) → leb_ℤ a.port (pos 0) ≡ true → ¬ (IsTcp a)
not-IsTcp a h t = absurd (cc (h, t))

IsTcp-port : (a : ListenAddress) → IsTcp a → a.port ≢ pos 0
IsTcp-port a t e = absurd (cc (sym t ∙ ap (λ z. leb_ℤ z (pos 0)) e))

IsFallback-other :
    (fallback : ℤ) (a : ListenAddress) (as' : List ListenAddress) (q : ℤ)
    → ¬ (IsTcp a)
    → IsFallback fallback as' q
    → IsFallback fallback (a ∷ as') q
IsFallback-other fallback a as' q n (inl h) = inl h
IsFallback-other fallback a as' q n (inr (e, inl (b, f, h))) = inr (e, inl (b, there a as' n f, h))
IsFallback-other fallback a as' q n (inr (e, inr (f, h))) = inr (e, inr ((n, f), h))

Found-other :
    (fallback : ℤ) (a : ListenAddress) (as' : List ListenAddress) (r : ℤ × ℤ)
    → ¬ (IsTcp a)
    → Found fallback as' r
    → Found fallback (a ∷ as') r
Found-other fallback a as' r n (inl (b, f, h)) = inl (b, there a as' (λ (t, v). n t) f, h)
Found-other fallback a as' r n (inr (f, h, g)) =
    inr ((λ (t, v). n t, f), h, IsFallback-other fallback a as' r.1 n g)

-- A TCP socket that is not bound to IPv4 becomes the fallback where there is none.
IsFallback-ipv6 :
    (fallback : ℤ) (a : ListenAddress) (as' : List ListenAddress) (q : ℤ)
    → IsTcp a
    → IsFallback (if int_beq fallback (pos 0) then a.port else fallback) as' q
    → IsFallback fallback (a ∷ as') q
IsFallback-ipv6 fallback a as' q t h = elim (Bool-cases (int_beq fallback (pos 0))) [
  | inl z ↦ elim (subst (λ x. IsFallback x as' q) (if_true (int_beq fallback (pos 0)) _ _ z) h) [
    | inl (n, e) ↦ inr ((int_beq_iff fallback (pos 0)).0 z, inl (a, here as' t, e))
    | inr (e, g) ↦ absurd (IsTcp-port a t e)
  ]
  | inr n ↦ elim (subst (λ x. IsFallback x as' q) (if_false (int_beq fallback (pos 0)) _ _ n) h) [
    | inl g ↦ inl g
    | inr (e, g) ↦ absurd (cc (n, (int_beq_iff fallback (pos 0)).1 e))
  ]
]

Found-ipv6 :
    (fallback : ℤ) (a : ListenAddress) (as' : List ListenAddress) (r : ℤ × ℤ)
    → IsTcp a
    → contains_colon a.address ≡ true
    → Found (if int_beq fallback (pos 0) then a.port else fallback) as' r
    → Found fallback (a ∷ as') r
Found-ipv6 fallback a as' r t c (inl (b, f, h)) = inl (b, there a as' (λ (u, v). cc (c, v)) f, h)
Found-ipv6 fallback a as' r t c (inr (f, h, g)) =
    inr ((λ (u, v). cc (c, v), f), h, IsFallback-ipv6 fallback a as' r.1 t g)

module _ (a : ListenAddress) (as' : List ListenAddress) (fallback : ℤ) where
  find_ports_skip :
      leb_ℤ a.port (pos 0) ≡ true → find_ports (a ∷ as') fallback ≡ find_ports as' fallback
  unfolding find_ports
  find_ports_skip y = rw (y, find_ports) refl

  find_ports_keep :
      IsTcp a
      → contains_colon a.address ≡ true
      → find_ports (a ∷ as') fallback
        ≡ find_ports as' (if int_beq fallback (pos 0) then a.port else fallback)
  unfolding find_ports
  find_ports_keep n c = rw (n, c, find_ports) refl

  find_ports_stop :
      IsTcp a
      → contains_colon a.address ≡ false
      → find_ports (a ∷ as') fallback ≡ (a.port, fallback)
  unfolding find_ports
  find_ports_stop n c = rw (n, c, find_ports) refl

pub find_ports-Found :
    (as' : List ListenAddress) (fallback : ℤ) → Found fallback as' (find_ports as' fallback)
unfolding find_ports
find_ports-Found [] fallback = elim (Bool-cases (int_beq fallback (pos 0))) [
  | inl z ↦ inr (
    tt,
    refl,
    inr ((int_beq_iff fallback (pos 0)).0 z, inr (tt, (int_beq_iff fallback (pos 0)).0 z)),
  )
  | inr n ↦ inr (tt, refl, inl (λ e. cc (n, (int_beq_iff fallback (pos 0)).1 e), refl))
]
find_ports-Found (a ∷ as') fallback = elim (Bool-cases (leb_ℤ a.port (pos 0))) [
  | inl y ↦
      subst (Found fallback (a ∷ as')) (sym (find_ports_skip a as' fallback y))
        (Found-other fallback a as' _ (not-IsTcp a y) (find_ports-Found as' fallback))
  | inr n ↦ elim (Bool-cases (contains_colon a.address)) [
    | inl c ↦
        subst (Found fallback (a ∷ as')) (sym (find_ports_keep a as' fallback n c))
          (Found-ipv6 fallback a as' _ n c (find_ports-Found as' _))
    | inr c ↦
        subst (Found fallback (a ∷ as')) (sym (find_ports_stop a as' fallback n c))
          (inl (a, here as' (n, c), refl))
  ]
]

IsFirst-IsTcp : (a : ListenAddress) (as' : List ListenAddress) → IsFirst IsTcp a as' → IsTcp a
IsFirst-IsTcp a as' (here bs t) = t
IsFirst-IsTcp a as' (there b bs n f) = IsFirst-IsTcp a bs f

IsFirst-IsIpv4 : (a : ListenAddress) (as' : List ListenAddress) → IsFirst IsIpv4 a as' → IsTcp a
IsFirst-IsIpv4 a as' (here bs (t, v)) = t
IsFirst-IsIpv4 a as' (there b bs n f) = IsFirst-IsIpv4 a bs f

-- The port that is chosen is that of a first socket, whose port is not 0.
pub choose_port-IsPort :
    (as' : List ListenAddress) (r : ℤ × ℤ) → Found (pos 0) as' r → IsPort as' (choose_port r)
choose_port-IsPort as' (p, q) (inl (a, f, e)) = rw (e, IsFirst-IsIpv4 a as' f) (inl (a, f, refl))
choose_port-IsPort as' (p, q) (inr (n, e, inl (z, h))) = absurd (z refl)
choose_port-IsPort as' (p, q) (inr (n, e, inr (z, inl (a, f, h)))) =
    rw (e, h, IsFirst-IsTcp a as' f) (inr (a, f, refl, n))
choose_port-IsPort as' (p, q) (inr (n, e, inr (z, inr (f, h)))) = rw (e, h) f
