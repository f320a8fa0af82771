-- ===== src/Varnishadm/Transactions.antt =====
-- The certificates of the mock under any sequence of commands, against the description of
-- Store.antt.
use vcltest.Base.{
  Bool, true, false, not, Option, none, some, List, [], ◌∷◌, ◌++◌, ℕ, ◌≡◌, refl, sym, ap, ◌∙◌, inl,
  inr, if◌then◌else◌, if_true, if_false, subst, arith, ◌==◌, eq_iff, Option-cases, Bool-cases, All,
}
use vcltest.Base.Map.{Map, lookup, insert, is_some, lookup-insert, lookup-remove}
use vcltest.Base.Text.{Text, text_eq, text_beq, codes, has_prefix, IsWord, fields-words}
use vcltest.Varnishadm.{
  load_staged, discard_staged, TlsCertEntry, MockVarnishadm, Handled, begin, new_cert,
  handle_tls_cert_load, handle_tls_cert_discard, handle_tls_cert_commit, handle_tls_cert_rollback,
  exec, load_parts, discard_parts, dispatch,
}
use vcltest.Varnishadm.Store.{
  Command, load, discard, commit, rollback, other, command_text, IsCommand, HasNoErrors, Store,
  or_cert, describe, describe_all, exec_all, Describes,
}

-- After a command on `m` the store is `s`, and the responses are those of `m`.
abbrev Follows : Store → MockVarnishadm → MockVarnishadm → Type 0
Follows s m n = Describes s n × (n.responses ≡ m.responses)

has_prefix_shorter : (s p q : Text) → has_prefix s p ≡ false → has_prefix s (p ++ q) ≡ false
unfolding has_prefix
has_prefix_shorter s [] q h = absurd (cc h)
has_prefix_shorter [] (b ∷ p) q h = refl
has_prefix_shorter (a ∷ s) (b ∷ p) q h = ground (arith, has_prefix_shorter s p q)

has_prefix_other : (s p q : Text) → has_prefix s p ≡ false → text_beq s (p ++ q) ≡ false
unfolding has_prefix text_beq
has_prefix_other s [] q h = absurd (cc h)
has_prefix_other [] (b ∷ p) q h = refl
has_prefix_other (a ∷ s) (b ∷ p) q h = ground (arith, has_prefix_other s p q)

begin-Follows : (s : Store) (m : MockVarnishadm) → Describes s m → Follows s m (begin m)
unfolding begin Describes
begin-Follows s m d = elim (Bool-cases m.tls_transaction) [
  | inl t ↦ subst (Follows s m) (sym (if_true m.tls_transaction _ _ t)) (d, refl)
  | inr f ↦
      subst (Follows s m) (sym (if_false m.tls_transaction _ _ f))
        ((d.0, λ id. rw f at (d.1 id)), refl)
]

begin-transaction : (m : MockVarnishadm) → (begin m).tls_transaction ≡ true
unfolding begin
begin-transaction m = ground arith

or_cert_present : (o : Option TlsCertEntry) (c : TlsCertEntry) → is_some o ≡ true → or_cert o c ≡ o
or_cert_present none c h = absurd (cc h)
or_cert_present (some d) c h = refl

or_cert_absent :
    (o : Option TlsCertEntry) (c : TlsCertEntry) → is_some o ≡ false → or_cert o c ≡ some c
or_cert_absent none c h = refl
or_cert_absent (some d) c h = absurd (cc h)

-- A taken identifier, and a free one that is loaded.
lookup_taken :
    (id j : Text) (c : TlsCertEntry) (m : Map Text TlsCertEntry)
    → is_some (lookup id m) ≡ true
    → lookup j m ≡ (if id == j then or_cert (lookup j m) c else lookup j m)
lookup_taken id j c m k = elim (Bool-cases (id == j)) [
  | inl e ↦ rw e (sym (or_cert_present _ c (rw ((eq_iff id j).0 e) at k)))
  | inr n ↦ rw n refl
]

lookup_free :
    (id j : Text) (c : TlsCertEntry) (m : Map Text TlsCertEntry)
    → is_some (lookup id m) ≡ false
    → lookup j (insert id c m) ≡ (if id == j then or_cert (lookup j m) c else lookup j m)
lookup_free id j c m k = elim (Bool-cases (id == j)) [
  | inl e ↦ rw (lookup-insert, e) (sym (or_cert_absent _ c (rw ((eq_iff id j).0 e) at k)))
  | inr n ↦ rw (lookup-insert, n) refl
]

load_staged-Follows :
    (now : ℕ) (id path : Text) (s : Store) (m : MockVarnishadm)
    → Describes s m
    → m.tls_transaction ≡ true
    → Follows (describe now (load id path) s) m (load_staged now id m).1
unfolding Describes load_staged describe
load_staged-Follows now id path s m d t =
    let staged : (j : Text) → lookup j m.tls_certs_staged ≡ s.1 j = λ j. rw t at (d.1 j) in
    elim (Bool-cases (is_some (lookup id m.tls_certs_staged))) [
      | inl k ↦
          rw k ((d.0, λ j. rw (t, sym (staged j)) (lookup_taken id j (new_cert now id) _ k)), refl)
      | inr k ↦
          rw k ((d.0, λ j. rw (t, sym (staged j)) (lookup_free id j (new_cert now id) _ k)), refl)
    ]

lookup_missing :
    (id j : Text) (m : Map Text TlsCertEntry)
    → is_some (lookup id m) ≡ false
    → lookup j m ≡ (if id == j then none else lookup j m)
lookup_missing id j m k = elim (Bool-cases (id == j)) [
  | inl e ↦ rw e (elim (Option-cases (lookup j m)) [
    | inl q ↦ q
    | inr (a, q) ↦ absurd (cc (ap is_some q, rw ((eq_iff id j).0 e) at k))
  ])
  | inr n ↦ rw n refl
]

discard_staged-Follows :
    (now : ℕ) (id : Text) (s : Store) (m : MockVarnishadm)
    → Describes s m
    → m.tls_transaction ≡ true
    → Follows (describe now (discard id) s) m (discard_staged id m).1
unfolding Describes discard_staged describe
discard_staged-Follows now id s m d t =
    let staged : (j : Text) → lookup j m.tls_certs_staged ≡ s.1 j = λ j. rw t at (d.1 j) in
    elim (Bool-cases (is_some (lookup id m.tls_certs_staged))) [
      | inl k ↦ rw k ((d.0, λ j. rw (t, sym (staged j)) (lookup-remove id j _)), refl)
      | inr k ↦ rw k ((d.0, λ j. rw (t, sym (staged j)) (lookup_missing id j _ k)), refl)
    ]

Follows-if_true :
    (b : Bool) (x y : Handled) (s : Store) (m : MockVarnishadm)
    → b ≡ true
    → Follows s m x.1
    → Follows s m (if b then x else y).1
Follows-if_true b x y s m h f = subst (λ (r : Handled). Follows s m r.1) (sym (if_true b x y h)) f

Follows-if_false :
    (b : Bool) (x y : Handled) (s : Store) (m : MockVarnishadm)
    → b ≡ false
    → Follows s m y.1
    → Follows s m (if b then x else y).1
Follows-if_false b x y s m h f = subst (λ (r : Handled). Follows s m r.1) (sym (if_false b x y h)) f

commit-Follows :
    (now : ℕ) (s : Store) (m : MockVarnishadm)
    → Describes s m
    → Follows (describe now commit s) m (handle_tls_cert_commit m).1
unfolding Describes handle_tls_cert_commit describe
commit-Follows now s m d = elim (Bool-cases m.tls_transaction) [
  | inl t ↦
      Follows-if_false (not m.tls_transaction) _ _ _ m (rw t refl)
        ((λ id. rw t at (d.1 id), λ id. rw t at (d.1 id)), refl)
  | inr f ↦
      Follows-if_true (not m.tls_transaction) _ _ _ m (rw f refl)
        ((λ id. rw f at (d.1 id), d.1), refl)
]

rollback-Follows :
    (now : ℕ) (s : Store) (m : MockVarnishadm)
    → Describes s m
    → Follows (describe now rollback s) m (handle_tls_cert_rollback m).1
unfolding Describes handle_tls_cert_rollback describe
rollback-Follows now s m d = elim (Bool-cases m.tls_transaction) [
  | inl t ↦ Follows-if_false (not m.tls_transaction) _ _ _ m (rw t refl) ((d.0, d.0), refl)
  | inr f ↦
      Follows-if_true (not m.tls_transaction) _ _ _ m (rw f refl) ((d.0, λ id. rw f (d.0 id)), refl)
]

-- A handler that begins a transaction first.
Follows-begin :
    (s s' : Store) (m n : MockVarnishadm)
    → Describes s m
    → (Describes s (begin m) → Follows s' (begin m) n)
    → Follows s' m n
Follows-begin s s' m n d f = let (b, r) = begin-Follows s m d in let (e, q) = f b in (e, q ∙ r)

load_IsWord : IsWord (codes "tls.cert.load")
load_IsWord = ground arith

discard_IsWord : IsWord (codes "tls.cert.discard")
discard_IsWord = ground arith

load-Follows :
    (now : ℕ) (id path : Text) (s : Store) (m : MockVarnishadm)
    → IsWord id
    → IsWord path
    → Describes s m
    → Follows
        (describe now (load id path) s)
        m
        (handle_tls_cert_load now (command_text (load id path)) m).1
unfolding handle_tls_cert_load command_text load_parts
load-Follows now id path s m i p d =
    rw (fields-words (codes "tls.cert.load") (id ∷ path ∷ []) load_IsWord (i, (p, tt))) (
      Follows-begin s _ m _ d
        (λ b. load_staged-Follows now id path s (begin m) b (begin-transaction m)))

discard-Follows :
    (now : ℕ) (id : Text) (s : Store) (m : MockVarnishadm)
    → IsWord id
    → Describes s m
    → Follows
        (describe now (discard id) s)
        m
        (handle_tls_cert_discard (command_text (discard id)) m).1
unfolding handle_tls_cert_discard command_text discard_parts
discard-Follows now id s m i d =
    rw (fields-words (codes "tls.cert.discard") (id ∷ []) discard_IsWord (i, tt)) (
      Follows-begin s _ m _ d
        (λ b. discard_staged-Follows now id s (begin m) b (begin-transaction m)))

dispatch-other :
    (now : ℕ) (format_time : ℕ → Text) (cmd : Text) (m : MockVarnishadm)
    → has_prefix cmd (codes "tls.cert.") ≡ false
    → (dispatch now format_time cmd m).1 ≡ m
unfolding dispatch
dispatch-other now format_time cmd m h =
    rw
      (
        has_prefix_shorter cmd (codes "tls.cert.") (codes "load ") h,
        has_prefix_shorter cmd (codes "tls.cert.") (codes "discard ") h,
        has_prefix_other cmd (codes "tls.cert.") (codes "commit") h,
        has_prefix_other cmd (codes "tls.cert.") (codes "rollback") h,
        has_prefix_other cmd (codes "tls.cert.") (codes "list") h,
      )
      refl

dispatch-Follows :
    (now : ℕ) (format_time : ℕ → Text) (c : Command) (s : Store) (m : MockVarnishadm)
    → IsCommand c
    → Describes s m
    → Follows (describe now c s) m (dispatch now format_time (command_text c) m).1
unfolding dispatch command_text has_prefix text_beq describe IsCommand
dispatch-Follows now format_time (load id path) s m (i, p) d = load-Follows now id path s m i p d
dispatch-Follows now format_time (discard id) s m i d = discard-Follows now id s m i d
dispatch-Follows now format_time commit s m i d = commit-Follows now s m d
dispatch-Follows now format_time rollback s m i d = rollback-Follows now s m d
dispatch-Follows now format_time (other cmd) s m i d =
    subst (Follows s m) (sym (dispatch-other now format_time cmd m i)) (d, refl)

exec-Follows :
    (now : ℕ) (format_time : ℕ → Text) (c : Command) (s : Store) (m : MockVarnishadm)
    → IsCommand c
    → HasNoErrors m.responses
    → Describes s m
    → Follows (describe now c s) m (exec now format_time (command_text c) m).1
unfolding exec HasNoErrors Describes
exec-Follows now format_time c s m i n d =
    rw (n (command_text c)) (dispatch-Follows now format_time c s _ i d)

-- Where no error is set as a response and a description fits the mock at the start, it still fits
-- after any sequence of commands with words for identifiers and paths: a load adds a certificate
-- unless its identifier is taken, a discard takes one away, a rollback goes back to the last commit,
-- a commit puts in place what was loaded and discarded, and no other command changes either.
pub exec_all_correct :
    (format_time : ℕ → Text) (cs : List (ℕ × Command)) (s : Store) (m : MockVarnishadm)
    → All (λ (c : ℕ × Command). IsCommand c.1) cs
    → HasNoErrors m.responses
    → Describes s m
    → Describes (describe_all cs s) (exec_all format_time cs m)
unfolding exec_all describe_all
exec_all_correct format_time [] s m i n d = d
exec_all_correct format_time ((now, c) ∷ cs) s m (i, is) n d =
    let (e, q) = exec-Follows now format_time c s m i n d in
    exec_all_correct format_time cs (describe now c s) _ is (subst HasNoErrors (sym q) n) e
