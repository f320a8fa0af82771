-- ===== src/Runner/Begun.antt =====
-- Which of its backends a test has started when it ends.
use vcltest.Base.{
  true, false, none, some, List, [], ◌∷◌, ◌++◌, ◌≡◌, ◌⊎◌, inl, inr, refl, sym, ap, subst, In,
  Option-cases,
}
use vcltest.Base.Map.{Map, keys, insert, In-keys-insert}
use vcltest.Base.Text.{Text, text_eq}
use vcltest.Vclloader.{parse_address}
use vcltest.Backend.{MockBackend, new, start}
use vcltest.Harness.{BackendAddress, config_of}
use vcltest.Testspec.{TestSpec, BackendSpec}
use vcltest.Runner.{Outside, TestResult}
use vcltest.Runner.Shared.{
  Outcome, done, error, RunError, not_loaded, no_backend, bad_address, no_time_controller, State,
}
use vcltest.Runner.Host.{Host, Action, and_then, ◌>>=◌}
use vcltest.Runner.Own.{start_each, stop_all, with_backends}
use vcltest.Runner.Names.{KeepsNames}

-- What keeps the next of these backends from being started: it gets no listener, or its mock is started
-- and its address does not parse; a scenario without a clock starts none.
pub data Stuck : RunError → List Text → Type 0 where
  unheard : (name : Text) (rest : List Text) → Stuck (not_loaded (no_backend name)) (name ∷ rest)
  unparsed :
      (name : Text) (mock : MockBackend) (rest : List Text)
      → mock.serving ≡ true
      → mock.stopped ≡ false
      → Stuck (not_loaded (bad_address name mock)) (name ∷ rest)
  untimed : (names : List Text) → Stuck no_time_controller names

-- The backends are started in their order, all of them or those before the one that is stuck; each that
-- was started is in the state.
pub record Begun {A : Type 0} (names : List Text) (o : Outcome A) (held : List Text) : Type 0 where
  pub begun : List Text
  pub rest : List Text
  pub split : names ≡ begun ++ rest
  pub holds : (name : Text) → In name begun → In name held
  pub reached : (rest ≡ []) ⊎ ((e : RunError) × (o ≡ error e) × Stuck e rest)

module _ {W : Type 0} (out : Outside W) (host : Host W) where
  abbrev mock_of : BackendSpec → Text → MockBackend
  mock_of spec addr = (start (some addr) (new (config_of spec))).1

  module _ (name : Text) (spec : BackendSpec) (specs : Map Text BackendSpec)
      (as' : Map Text BackendAddress) (mocks : Map Text MockBackend) (w : W) where
    start_each-unheard :
        (host.listen name w).0 ≡ none
        → start_each out host ((name, spec) ∷ specs) as' (mocks, w)
          ≡ (error (not_loaded (no_backend name)), (mocks, (host.listen name w).1))
    unfolding start_each ◌>>=◌
    start_each-unheard q = rw q refl

    start_each-unparsed :
        (addr : Text)
        → (host.listen name w).0 ≡ some addr
        → parse_address addr ≡ none
        → start_each out host ((name, spec) ∷ specs) as' (mocks, w) ≡ (
          error (not_loaded (bad_address name (mock_of spec addr))),
          (mocks, (host.listen name w).1),
        )
    unfolding start_each ◌>>=◌
    start_each-unparsed addr q p = rw (q, p) refl

    start_each-next :
        (addr : Text) (a : BackendAddress)
        → (host.listen name w).0 ≡ some addr
        → parse_address addr ≡ some a
        → start_each out host ((name, spec) ∷ specs) as' (mocks, w)
          ≡ start_each out host specs
              (insert name a as')
              (insert name (mock_of spec addr) mocks, (host.listen name w).1)
    unfolding start_each ◌>>=◌
    start_each-next addr a q p = rw (q, p) refl

  -- What the state holds is kept, and what is started is added.
  abbrev Adds :
      Map Text BackendSpec
      → Map Text MockBackend
      → Outcome (Map Text BackendAddress) × State W
      → Type 0
  Adds specs mocks x =
      Begun (keys specs) x.0 (keys x.1.0) × ((n : Text) → In n (keys mocks) → In n (keys x.1.0))

  Adds-first :
      (name : Text) (spec : BackendSpec) (specs : Map Text BackendSpec)
      (mocks : Map Text MockBackend) (v : W) (e : RunError)
      → Stuck e (name ∷ keys specs)
      → Adds ((name, spec) ∷ specs) mocks (error e, (mocks, v))
  Adds-first name spec specs mocks v e h = (
    record {
      begun = [];
      rest = name ∷ keys specs;
      split = refl;
      holds = λ n m. absurd m;
      reached = inr (e, refl, h);
    },
    λ n m. m,
  )

  Adds-next :
      (name : Text) (spec : BackendSpec) (specs : Map Text BackendSpec)
      (mocks : Map Text MockBackend) (mock : MockBackend)
      (x : Outcome (Map Text BackendAddress) × State W)
      → Adds specs (insert name mock mocks) x
      → Adds ((name, spec) ∷ specs) mocks x
  Adds-next name spec specs mocks mock x (b, k) = (
    record {
      begun = name ∷ b.begun;
      rest = b.rest;
      split = ap (λ t. name ∷ t) b.split;
      holds = λ n m. elim m [
        | inl q ↦ k n ((In-keys-insert name mock mocks n).1 (inl (sym q)))
        | inr i ↦ b.holds n i
      ];
      reached = b.reached;
    },
    λ n m. k n ((In-keys-insert name mock mocks n).1 (inr m)),
  )

  start_each-Adds :
      (specs : Map Text BackendSpec) (as' : Map Text BackendAddress) (mocks : Map Text MockBackend)
      (w : W)
      → Adds specs mocks (start_each out host specs as' (mocks, w))
  unfolding start_each
  start_each-Adds [] as' mocks w = (
    record { begun = []; rest = []; split = refl; holds = λ n m. absurd m; reached = inl refl },
    λ n m. m,
  )
  start_each-Adds ((name, spec) ∷ specs) as' mocks w = elim (Option-cases (host.listen name w).0) [
    | inl q ↦
        subst (Adds ((name, spec) ∷ specs) mocks)
          (sym (start_each-unheard name spec specs as' mocks w q))
          (Adds-first name spec specs mocks (host.listen name w).1 _ (unheard name (keys specs)))
    | inr (addr, q) ↦ elim (Option-cases (parse_address addr)) [
      | inl p ↦
          subst (Adds ((name, spec) ∷ specs) mocks)
            (sym (start_each-unparsed name spec specs as' mocks w addr q p))
            (Adds-first name spec specs mocks (host.listen name w).1 _ (
              unparsed name (mock_of spec addr) (keys specs) (unfold start in refl)
                (unfold start new in refl)))
      | inr (a, p) ↦
          subst (Adds ((name, spec) ∷ specs) mocks)
            (sym (start_each-next name spec specs as' mocks w addr a q p))
            (Adds-next name spec specs mocks (mock_of spec addr)
              (start_each out host specs (insert name a as')
                (insert name (mock_of spec addr) mocks, (host.listen name w).1))
              (start_each-Adds specs (insert name a as') (insert name (mock_of spec addr) mocks)
                (host.listen name w).1))
    ]
  ]

  stop_all-names : (mocks : Map Text MockBackend) → keys (stop_all mocks) ≡ keys mocks
  unfolding stop_all
  stop_all-names [] = refl
  stop_all-names ((name, m) ∷ ms) = ap (λ t. name ∷ t) (stop_all-names ms)

  then-Begun :
      {A : Type 0} (names : List Text) (x : Outcome (Map Text BackendAddress) × State W)
      (body : Map Text BackendAddress → Action W A)
      → ((a : Map Text BackendAddress) → KeepsNames (body a))
      → Begun names x.0 (keys x.1.0)
      → Begun names (and_then x body).0 (keys (and_then x body).1.0)
  then-Begun names (error e, s) body h b = record {
    begun = b.begun;
    rest = b.rest;
    split = b.split;
    holds = b.holds;
    reached = elim b.reached [
      | inl r ↦ inl r
      | inr (e', q, k) ↦ inr (e', (let r : e ≡ e' = cc q in ap error r), k)
    ];
  }
  then-Begun names (done a, s) body h b = record {
    begun = b.begun;
    rest = b.rest;
    split = b.split;
    holds = λ n m. subst (λ ks. In n ks) (sym (h a s)) (b.holds n m);
    reached = elim b.reached [ inl r ↦ inl r | inr (e', q, k) ↦ absurd (cc q) ];
  }

  pub with_backends-Begun :
      (test : TestSpec) (body : Map Text BackendAddress → Action W TestResult) (w : W)
      → ((a : Map Text BackendAddress) → KeepsNames (body a))
      → (let x = with_backends out host test body w in Begun (keys test.backends) x.0 (keys x.1.0))
  unfolding with_backends ◌>>=◌
  with_backends-Begun test body w h =
      let x = start_each out host test.backends [] ([], w) in
      subst (Begun (keys test.backends) (and_then x body).0)
        (sym (stop_all-names (and_then x body).1.0))
        (then-Begun (keys test.backends) x body h (start_each-Adds test.backends [] [] w).0)
