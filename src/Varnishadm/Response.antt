-- ===== src/Varnishadm/Response.antt =====
-- The responses that are read by Frame.antt, against the bytes that spell them.
use vcltest.Base.{
  false, Option, none, some, [], ◌∷◌, ◌++◌, ℕ, suc, ◌+◌, ◌≤◌, ◌≡◌, refl, sym, ap, ◌∙◌, ◌↔◌, inl,
  inr, if_true, if_false, subst, arith, ltb, nat_beq, nat_beq_iff, Bool-cases, Option-cases, length,
  take, drop, get_elem?, length-append, take-append,
}
use vcltest.Base.Int.{ℤ, pos, negsuc}
use vcltest.Base.Text.{Text, trim_space, atoi}
use vcltest.Varnishadm.Frame.{
  ok, byte_or, byte_at, read_body, read_length, read_status, read_header, read_from_connection,
  header_of, IsResponse,
}
use vcltest.Varnishadm.Cuts.{
  cut_at, drop_at, drop_past, get_at, get_elem?-drop, length-drop, length-eq-zero, length-take,
  take_at, take-drop,
}

-- A byte that is not 0 stands inside the text.
byte_at-some : (i c : ℕ) (s : Text) → byte_at i s ≡ suc c → get_elem? s i ≡ some (suc c)
byte_at-some i c s h = elim (Option-cases (get_elem? s i)) [
  | inl q ↦ absurd (omega (arith, h, ap byte_or q))
  | inr (a, q) ↦ q ∙ ap some (sym (ap byte_or q) ∙ h)
]

read_body_ok :
    (s rest : Text) (status : ℤ)
    → read_body (s ++ b'\n' ∷ rest) status (pos (length s)) ≡ ok s status
read_body_ok s rest status =
    rw (length-append, get_at (length s) s b'\n' rest refl, take-append)
      (if_false (ltb (length s + suc (length rest)) (length s + 1)) _ _ (ground arith))

read_body_parts :
    (s body : Text) (status : ℤ) (k : ℕ) (b : ℤ)
    → k ≤ length s
    → byte_at k s ≡ b'\n'
    → ok (take k s) status ≡ ok body b
    → (status ≡ b) × (pos k ≡ pos (length body)) × ((rest : Text) × (s ≡ body ++ b'\n' ∷ rest))
read_body_parts s body status k b l nl e =
    let t : take k s ≡ body = cc e in
    (
      cc e,
      ap pos (sym (length-take k s l) ∙ ap length t),
      (
        drop (suc k) s,
        cut_at k _ s (byte_at-some k 9 s nl) ∙ ap (λ u. u ++ b'\n' ∷ drop (suc k) s) t,
      ),
    )

-- A body that is read is the text of its length before a newline.
read_body_inverse :
    (s body : Text) (status n : ℤ) (b : ℤ)
    → read_body s status n ≡ ok body b
    → (status ≡ b) × (n ≡ pos (length body)) × ((rest : Text) × (s ≡ body ++ b'\n' ∷ rest))
read_body_inverse s body status (negsuc k) b h = absurd (cc h)
read_body_inverse s body status (pos k) b h = elim (Bool-cases (ltb (length s) (k + 1))) [
  | inl short ↦ absurd (cc (if_true (ltb (length s) (k + 1)) _ _ short, h))
  | inr long ↦ elim (Bool-cases (nat_beq (byte_at k s) b'\n')) [
    | inl nl ↦ read_body_parts s body status k b (ground arith) ((nat_beq_iff _ _).0 nl) (
        cc (
          if_false (ltb (length s) (k + 1)) _ _ long,
          if_true (nat_beq (byte_at k s) b'\n') _ _ nl,
          h,
        ))
    | inr other ↦ absurd (
        cc (
          if_false (ltb (length s) (k + 1)) _ _ long,
          if_false (nat_beq (byte_at k s) b'\n') _ _ other,
          h,
        ))
  ]
]

-- The fields of a header: a status of three bytes and a body length of eight.
abbrev pub IsHeader : Text → Text → Text → Type 0
IsHeader header status body_len =
    (length status ≡ 3) × (length body_len ≡ 8) × (header ≡ header_of status body_len)

header-fields :
    (status body_len : Text)
    → length status ≡ 3
    → length body_len ≡ 8
    → (byte_at 3 (header_of status body_len) ≡ b' ')
      × (byte_at 12 (header_of status body_len) ≡ b'\n')
      × (take 3 (header_of status body_len) ≡ status)
      × (take 8 (drop 4 (header_of status body_len)) ≡ body_len)
      × (length (header_of status body_len) ≡ 13)
header-fields st ln h k =
    let d : drop 4 (header_of st ln) ≡ ln ++ b'\n' ∷ [] = drop_past 3 st b' ' _ h in
    (
      ap byte_or (get_at 3 st b' ' _ h),
      ap byte_or (
          sym (get_elem?-drop 4 8 12 (header_of st ln) refl)
          ∙ (ap (λ (t : Text). get_elem? t 8) d ∙ get_at 8 ln b'\n' [] k)),
      take_at 3 st _ h,
      ap (take 8) d ∙ take_at 8 ln _ k,
      omega (
        arith,
        length-append st (b' ' ∷ (ln ++ b'\n' ∷ [])),
        length-append ln (b'\n' ∷ []),
        h,
        k,
      ),
    )

fields-IsHeader :
    (h : Text)
    → length h ≡ 13
    → byte_at 3 h ≡ b' '
    → byte_at 12 h ≡ b'\n'
    → IsHeader h (take 3 h) (take 8 (drop 4 h))
fields-IsHeader h l sp nl =
    let rest : length (drop 4 h) ≡ 9 = length-drop 4 9 h (omega (arith, l)) in
    (
      length-take 3 h (omega (arith, l)),
      length-take 8 (drop 4 h) (omega (arith, rest)),
      cut_at 3 _ h (byte_at-some 3 31 h sp)
          ∙ ap (λ t. take 3 h ++ b' ' ∷ t)
              (cut_at 8 _ (drop 4 h) (get_elem?-drop 4 8 12 h refl ∙ byte_at-some 12 9 h nl)
                ∙ ap (λ t. take 8 (drop 4 h) ++ b'\n' ∷ t)
                    (length-eq-zero (drop 9 (drop 4 h)) (length-drop 9 0 (drop 4 h) (sym rest)))),
    )

long_enough : (h s : Text) → length h ≡ 13 → ltb (length (h ++ s)) 13 ≡ false
long_enough h s l = ground (arith, length-append h s)

read-response :
    (input body : Text) (status : ℤ)
    → IsResponse input body status
    → read_from_connection input ≡ ok body status
unfolding read_from_connection read_header read_status IsResponse
read-response input body status (st, ln, rest, h, k, a, b, e) =
    let (sp, nl, t3, t8, len) = header-fields st ln h k in
    let s : Text = body ++ b'\n' ∷ rest in
    rw e (
      if_false (ltb (length (header_of st ln ++ s)) 13) _ _ (long_enough (header_of st ln) s len)
      ∙ (rw
          (
            take_at 13 (header_of st ln) s len,
            drop_at 13 (header_of st ln) s len,
            sp,
            nl,
            t3,
            a,
            t8,
            b,
          )
          (read_body_ok body rest status)))

read_length-inverse :
    (s body text : Text) (status b : ℤ) (o : Option ℤ)
    → read_length s status text o ≡ ok body b
    → (status ≡ b) × (o ≡ some (pos (length body))) × ((rest : Text) × (s ≡ body ++ b'\n' ∷ rest))
read_length-inverse s body text status b none h = absurd (cc h)
read_length-inverse s body text status b (some n) h =
    let (e, l, r) = read_body_inverse s body status n b h in (e, ap some l, r)

read_status-inverse :
    (s header body text : Text) (b : ℤ) (o : Option ℤ)
    → read_status s header text o ≡ ok body b
    → (o ≡ some b)
      × (atoi (trim_space (take 8 (drop 4 header))) ≡ some (pos (length body)))
      × ((rest : Text) × (s ≡ body ++ b'\n' ∷ rest))
unfolding read_status
read_status-inverse s header body text b none h = absurd (cc h)
read_status-inverse s header body text b (some n) h =
    let (e, l, r) = read_length-inverse s body _ n b _ h in (ap some e, l, r)

read_header-inverse :
    (header s body : Text) (b : ℤ)
    → length header ≡ 13
    → read_header header s ≡ ok body b
    → IsResponse (header ++ s) body b
unfolding read_header IsResponse
read_header-inverse header s body b l h = elim (Bool-cases (nat_beq (byte_at 3 header) b' ')) [
  | inr bad ↦ absurd (cc (if_false (nat_beq (byte_at 3 header) b' ') _ _ bad, h))
  | inl sp ↦ elim (Bool-cases (nat_beq (byte_at 12 header) b'\n')) [
    | inr bad ↦ absurd (
        cc (
          if_true (nat_beq (byte_at 3 header) b' ') _ _ sp,
          if_false (nat_beq (byte_at 12 header) b'\n') _ _ bad,
          h,
        ))
    | inl nl ↦
        let (e, n, (rest, q)) =
          read_status-inverse s header body (trim_space (take 3 header)) b
            (atoi (trim_space (take 3 header)))
            (cc (
              if_true (nat_beq (byte_at 3 header) b' ') _ _ sp,
              if_true (nat_beq (byte_at 12 header) b'\n') _ _ nl,
              h,
            )) in
        let (h3, h8, eq) =
          fields-IsHeader header l ((nat_beq_iff _ _).0 sp) ((nat_beq_iff _ _).0 nl) in
        (
          take 3 header,
          take 8 (drop 4 header),
          rest,
          h3,
          h8,
          e,
          n,
          ap (λ t. t ++ s) eq ∙ ap (λ t. header_of (take 3 header) (take 8 (drop 4 header)) ++ t) q,
        )
  ]
]

-- A response is read from what has arrived exactly when that starts with a header of three bytes, a
-- space, eight bytes and a newline, whose fields spell the status and the length of a body, with
-- the body and a newline behind it; then that body and that status are the result.
pub read_from_connection_iff :
    (input body : Text) (status : ℤ)
    → (read_from_connection input ≡ ok body status) ↔ IsResponse input body status
unfolding read_from_connection
read_from_connection_iff input body status = (
  λ h. elim (Bool-cases (ltb (length input) 13)) [
    | inl short ↦ absurd (cc (if_true (ltb (length input) 13) _ _ short, h))
    | inr long ↦
        subst (λ t. IsResponse t body status) (take-drop 13 input)
          (read_header-inverse (take 13 input) (drop 13 input) body status
            (length-take 13 input (ground arith))
            (cc (if_false (ltb (length input) 13) _ _ long, h)))
  ],
  read-response input body status,
)
