-- ===== src/Recorder/Backends.antt =====
-- `GetBackendsUsed` and `CountBackendCalls` against the messages they read.
use vcltest.Base.{
  Bool, true, ◌≡◌, refl, ◌↔◌, ◌⊎◌, inl, inr, List, [], ◌∷◌, some, In, Any, Any-map, Distinct, ◌≤◌,
  length, ltb, arith, false, Option-cases, subst,
}
use vcltest.Base.Map.{Map, keys, insert, In-keys-insert, keys-insert-Distinct}
use vcltest.Base.Text.{Text, text_eq}
use vcltest.Recorder.{
  Message, MessageType, vcl_trace, vcl_call, vcl_return, backend_open, req_url, resp_status,
  req_header, resp_header, other, field,
}
use vcltest.Recorder.Parser.{
  BackendCall, is_backend_open, parse_backend_call, used_set, get_backends_used,
}

-- The message is a `BackendOpen` with six fields or more, the fourth of which names the backend.
abbrev pub Opens : Text → Message → Type 0
Opens name msg = (msg.type ≡ backend_open) × (6 ≤ length msg.fields) × (field msg.fields 3 ≡ name)

is_backend_open_iff : (t : MessageType) → (is_backend_open t ≡ true) ↔ (t ≡ backend_open)
is_backend_open_iff vcl_trace = (λ h. absurd (cc h), λ h. absurd (cc h))
is_backend_open_iff vcl_call = (λ h. absurd (cc h), λ h. absurd (cc h))
is_backend_open_iff vcl_return = (λ h. absurd (cc h), λ h. absurd (cc h))
is_backend_open_iff backend_open = (λ h. refl, λ h. refl)
is_backend_open_iff req_url = (λ h. absurd (cc h), λ h. absurd (cc h))
is_backend_open_iff resp_status = (λ h. absurd (cc h), λ h. absurd (cc h))
is_backend_open_iff req_header = (λ h. absurd (cc h), λ h. absurd (cc h))
is_backend_open_iff resp_header = (λ h. absurd (cc h), λ h. absurd (cc h))
is_backend_open_iff other = (λ h. absurd (cc h), λ h. absurd (cc h))

-- The message parses to a call of that backend.
abbrev Calls : Text → Message → Type 0
Calls name msg = (b : BackendCall) × (parse_backend_call msg ≡ some b) × (b.backend_name ≡ name)

Calls-Opens : (name : Text) (msg : Message) → Calls name msg → Opens name msg
unfolding parse_backend_call
Calls-Opens name msg (b, p, q) = ground (arith, is_backend_open_iff msg.type, q)

Opens-Calls : (name : Text) (msg : Message) → Opens name msg → Calls name msg
unfolding parse_backend_call
Opens-Calls name msg (o, n, q) =
    let t = (is_backend_open_iff msg.type).1 o in
    let f : ltb (length msg.fields) 6 ≡ false = ground arith in
    let b : BackendCall = record {
      id = field msg.fields 2;
      backend_name = field msg.fields 3;
      host = field msg.fields 4;
      port = field msg.fields 5;
    } in
    (b, rw (t, f) refl, q)

used_set-In :
    (ms : List Message) (set : Map Text Bool) (name : Text)
    → In name (keys (used_set ms set)) ↔ (Any (Calls name) ms ⊎ In name (keys set))
unfolding used_set
used_set-In [] set name = (λ h. inr h, λ h. elim h [ inl x ↦ elim x [ ] | inr x ↦ x ])
used_set-In (m ∷ ms) set name = elim (Option-cases (parse_backend_call m)) [
  | inl e ↦
      let ih = used_set-In ms set name in
      rw (e, used_set)
        (
          λ h. elim (ih.0 h) [ inl a ↦ inl (inr a) | inr k ↦ inr k ],
          λ h. ih.1 (elim h [
            | inl (inl (b, p, _)) ↦ absurd (cc p)
            | inl (inr a) ↦ inl a
            | inr k ↦ inr k
          ]),
        )
  | inr (b, e) ↦
      let ih = used_set-In ms (insert b.backend_name true set) name in
      let ins = In-keys-insert b.backend_name true set name in
      rw (e, used_set)
        (
          λ h. elim (ih.0 h) [
            | inl a ↦ inl (inr a)
            | inr k ↦ elim (ins.0 k) [ inl q ↦ inl (inl (b, refl, q)) | inr x ↦ inr x ]
          ],
          λ h. ih.1 (elim h [
            | inl (inl (c, p, q)) ↦
                let same : c ≡ b = cc p in
                inr (ins.1 (inl (subst (λ (x : BackendCall). x.backend_name ≡ name) same q)))
            | inl (inr a) ↦ inl a
            | inr k ↦ inr (ins.1 (inr k))
          ]),
        )
]

used_set-Distinct :
    (ms : List Message) (set : Map Text Bool)
    → Distinct (keys set)
    → Distinct (keys (used_set ms set))
unfolding used_set
used_set-Distinct [] set d = d
used_set-Distinct (m ∷ ms) set d = elim (Option-cases (parse_backend_call m)) [
  | inl e ↦ rw (e, used_set) (used_set-Distinct ms set d)
  | inr (b, e) ↦
      rw (e, used_set)
        (used_set-Distinct ms (insert b.backend_name true set)
          (keys-insert-Distinct b.backend_name true set d))
]

-- The backends used are exactly the fourth fields of the `BackendOpen` messages with six fields or
-- more, each named once.
pub get_backends_used_iff :
    (ms : List Message)
    → Distinct (get_backends_used ms)
      × ((name : Text) → In name (get_backends_used ms) ↔ Any (Opens name) ms)
unfolding get_backends_used
get_backends_used_iff ms = (
  used_set-Distinct ms [] tt,
  λ name.
      let u = used_set-In ms [] name in
      (
        λ h. elim (u.0 h) [ inl a ↦ Any-map ms (Calls-Opens name) a | inr k ↦ elim k [ ] ],
        λ a. u.1 (inl (Any-map ms (Opens-Calls name) a)),
      ),
)
