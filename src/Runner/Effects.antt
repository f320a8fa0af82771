-- ===== src/Runner/Effects.antt =====
-- What an action of the runner has done to Varnish and to the file system, as the list of its steps.
use vcltest.Base.{
  Bool, true, false, Option, none, some, List, [], ◌∷◌, ◌++◌, ◌≡◌, refl, sym, ap, ◌∙◌, subst,
  append-nil, append_assoc, All, All-append,
}
use vcltest.Base.Map.{Map}
use vcltest.Base.Int.{ℤ}
use vcltest.Base.Text.{Text}
use vcltest.Backend.{MockBackend}
use vcltest.Testspec.{RequestSpec}
use vcltest.Runner.{Outside}
use vcltest.Runner.Shared.{Outcome, done, error, RunError, State}
use vcltest.Runner.Host.{
  Host, Action, and_then, ◌>>=◌, outside, or_throw, throw, ensure, finally, return,
}

pub data Event : Type 0 where
  loaded : Text → Text → Event
  used discarded showed : Text → Event
  made_temp made_dirs removed : Text → Event
  wrote : Text → Text → Event
  launched context_cancelled log_started log_stopped : Event

abbrev pub temp_event : Option Text → List Event
temp_event none = []
temp_event (some dir) = made_temp dir ∷ []

-- `events` is a record of the steps that a host keeps in its state: each step adds itself, and what the
-- runner does besides, requests and the clock and the log, adds nothing.
pub record Records {W : Type 0} (out : Outside W) (host : Host W) (events : W → List Event)
    : Type 0 where
  pub vcl_load : (n p : Text) (w : W) → events (host.vcl_load n p w).1 ≡ events w ++ loaded n p ∷ []
  pub vcl_use : (n : Text) (w : W) → events (host.vcl_use n w).1 ≡ events w ++ used n ∷ []
  pub vcl_discard :
      (n : Text) (w : W) → events (host.vcl_discard n w).1 ≡ events w ++ discarded n ∷ []
  pub vcl_show : (n : Text) (w : W) → events (host.vcl_show n w).1 ≡ events w ++ showed n ∷ []
  pub make_temp_dir :
      (w : W) → events (host.make_temp_dir w).1 ≡ events w ++ temp_event (host.make_temp_dir w).0
  pub make_dirs : (p : Text) (w : W) → events (host.make_dirs p w).1 ≡ events w ++ made_dirs p ∷ []
  pub write_file :
      (p c : Text) (w : W) → events (host.write_file p c w).1 ≡ events w ++ wrote p c ∷ []
  pub remove_all : (p : Text) (w : W) → events (host.remove_all p w) ≡ events w ++ removed p ∷ []
  pub listen : (n : Text) (w : W) → events (host.listen n w).1 ≡ events w
  pub make_request :
      (jar : Bool) (q : RequestSpec) (ms : Map Text MockBackend) (w : W)
      → events (out.make_request jar q ms w).1.1 ≡ events w
  pub advance_time : (t : ℤ) (w : W) → events (out.advance_time t w).1 ≡ events w
  pub flush : (w : W) → events (out.flush w) ≡ events w
  pub new_jar : (w : W) → events (out.new_jar w) ≡ events w

-- A step of a setup: it undoes nothing.
abbrev pub IsSetup : Event → Type 0
IsSetup (loaded n p) = Unit
IsSetup (used n) = Unit
IsSetup (discarded n) = ⊥
IsSetup (showed n) = Unit
IsSetup (made_temp p) = Unit
IsSetup (made_dirs p) = Unit
IsSetup (removed p) = ⊥
IsSetup (wrote p c) = Unit
IsSetup launched = Unit
IsSetup context_cancelled = ⊥
IsSetup log_started = Unit
IsSetup log_stopped = ⊥

-- With a result the events are exactly `es`, with an error those of a setup.
abbrev pub Exactly : {A : Type 0} → List Event → (A → Type 0) → Outcome A → List Event → Type 0
Exactly es P (done a) gs = (gs ≡ es) × P a
Exactly es P (error e) gs = All IsSetup gs

-- Nothing happens, whatever the outcome.
abbrev pub Quiet : {A : Type 0} → (A → Type 0) → Outcome A → List Event → Type 0
Quiet P (done a) es = (es ≡ []) × P a
Quiet P (error e) es = es ≡ []

module _ {W : Type 0} (events : W → List Event) where
  -- From every state the action adds events that fit its outcome.
  abbrev pub Runs : {A : Type 0} → Action W A → (Outcome A → List Event → Type 0) → Type 0
  Runs m P =
      (s : State W) → (es : List Event) × (events (m s).1.1 ≡ events s.1 ++ es) × P (m s).0 es

  -- An outcome and state by clauses, for the two rules of sequencing.
  and_then-Runs :
      {A B : Type 0} (P : Outcome A → List Event → Type 0) (Q : Outcome B → List Event → Type 0)
      (f : A → Action W B) (before : List Event) (r : Outcome A × State W)
      → ((es : List Event) × (events r.1.1 ≡ before ++ es) × P r.0 es)
      → ((a : A) (es : List Event) → P (done a) es → Runs (f a) (λ o fs. Q o (es ++ fs)))
      → ((e : RunError) (es : List Event) → P (error e) es → Q (error e) es)
      → (es : List Event) × (events (and_then r f).1.1 ≡ before ++ es) × Q (and_then r f).0 es
  and_then-Runs P Q f before (done a, s) (es, q, p) good bad =
      let (fs, q', p') = good a es p s in
      (es ++ fs, q' ∙ ap (λ t. t ++ fs) q ∙ append_assoc before es fs, p')
  and_then-Runs P Q f before (error e, s) (es, q, p) good bad = (es, q, bad e es p)

  pub >>=-Runs :
      {A B : Type 0} (P : Outcome A → List Event → Type 0) (Q : Outcome B → List Event → Type 0)
      (m : Action W A) (f : A → Action W B)
      → Runs m P
      → ((a : A) (es : List Event) → P (done a) es → Runs (f a) (λ o fs. Q o (es ++ fs)))
      → ((e : RunError) (es : List Event) → P (error e) es → Q (error e) es)
      → Runs (m >>= f) Q
  unfolding ◌>>=◌
  >>=-Runs P Q m f h good bad s = and_then-Runs P Q f (events s.1) (m s) (h s) good bad

  -- The events of one step outside, which cannot fail by itself.
  pub outside-Runs :
      {A : Type 0} (f : W → A × W) (emitted : A → List Event)
      → ((w : W) → events (f w).1 ≡ events w ++ emitted (f w).0)
      → Runs (outside f) (λ o es. (a : A) × (o ≡ done a) × (es ≡ emitted a))
  outside-Runs f emitted h (mocks, w) = (emitted (f w).0, h w, ((f w).0, refl, refl))

  pub record Sets {A : Type 0} (m : Action W A) (es : List Event) (P : A → Type 0) : Type 0 where
    pub runs : Runs m (Exactly es P)

  after-Exactly :
      {B : Type 0} (Q : B → Type 0) (es fs : List Event) (o : Outcome B) (gs hs : List Event)
      → All IsSetup es
      → gs ≡ es
      → Exactly fs Q o hs
      → Exactly (es ++ fs) Q o (gs ++ hs)
  after-Exactly Q es fs (done b) gs hs setup q (r, p) = (rw (q, r) refl, p)
  after-Exactly Q es fs (error e) gs hs setup q r =
      All-append IsSetup gs hs (subst (All IsSetup) (sym q) setup) r

  pub >>=-Sets :
      {A B : Type 0} {m : Action W A} {f : A → Action W B} {es fs : List Event} {P : A → Type 0}
      {Q : B → Type 0}
      → All IsSetup es
      → Sets m es P
      → ((a : A) → P a → Sets (f a) fs Q)
      → Sets (m >>= f) (es ++ fs) Q
  >>=-Sets {m} {f} {es} {fs} {P} {Q} setup h k = record {
    runs =
        >>=-Runs (Exactly es P) (Exactly (es ++ fs) Q) m f h.runs
          (λ a gs (q, p) s.
            let (hs, e, r) = (k a p).runs s in
            (hs, e, after-Exactly Q es fs (f a s).0 gs hs setup q r))
          (λ e gs p. p);
  }

  pub outside-Sets :
      {A : Type 0} {es : List Event} (f : W → A × W)
      → ((w : W) → events (f w).1 ≡ events w ++ es)
      → Sets (outside f) es (λ (a : A). Unit {0})
  outside-Sets {es} f h = record { runs = λ (mocks, w). (es, h w, (refl, tt)) }

  pub return-Sets : {A : Type 0} (a : A) → Sets (return a) [] (λ b. a ≡ b)
  return-Sets a = record { runs = λ s. ([], sym (append-nil (events s.1)), (refl, refl)) }

  pub or_throw-Sets :
      {A : Type 0} (e : RunError) (o : Option A) → Sets (or_throw e o) [] (λ (a : A). o ≡ some a)
  or_throw-Sets e none = record { runs = λ s. ([], sym (append-nil (events s.1)), tt) }
  or_throw-Sets e (some a) = record {
    runs = λ s. ([], sym (append-nil (events s.1)), (refl, refl));
  }

  pub throw-Sets : {A : Type 0} (e : RunError) (P : A → Type 0) → Sets (throw e) [] P
  throw-Sets e P = record { runs = λ s. ([], sym (append-nil (events s.1)), tt) }

  pub ensure-Sets : (e : RunError) (b : Bool) → Sets (ensure e b) [] (λ (u : Unit {0}). b ≡ true)
  ensure-Sets e true = record { runs = λ s. ([], sym (append-nil (events s.1)), (refl, refl)) }
  ensure-Sets e false = record { runs = λ s. ([], sym (append-nil (events s.1)), tt) }

  pub weaken-Exactly :
      {A : Type 0} (P Q : A → Type 0) (es : List Event) (o : Outcome A) (gs : List Event)
      → ((a : A) → P a → Q a)
      → Exactly es P o gs
      → Exactly es Q o gs
  weaken-Exactly P Q es (done a) gs w (q, p) = (q, w a p)
  weaken-Exactly P Q es (error e) gs w h = h

  pub weaken-Sets :
      {A : Type 0} {m : Action W A} {es : List Event} {P Q : A → Type 0}
      → ((a : A) → P a → Q a)
      → Sets m es P
      → Sets m es Q
  weaken-Sets {m} {es} {P} {Q} w h = record {
    runs = λ s. let (gs, e, p) = h.runs s in (gs, e, weaken-Exactly P Q es (m s).0 gs w p);
  }

  pub finally-Runs :
      {A : Type 0} (P : Outcome A → List Event → Type 0) (m : Action W A)
      (cleanup : State W → State W) (es : List Event)
      → Runs m P
      → ((s : State W) → events (cleanup s).1 ≡ events s.1 ++ es)
      → Runs (finally m cleanup) (λ o fs. (gs : List Event) × (fs ≡ gs ++ es) × P o gs)
  finally-Runs P m cleanup es h c s =
      let (gs, e, p) = h s in
      (gs ++ es, c (m s).1 ∙ ap (λ t. t ++ es) e ∙ append_assoc (events s.1) gs es, (gs, refl, p))

  Quiet-Exactly :
      {A : Type 0} (P : A → Type 0) (o : Outcome A) (es : List Event)
      → Quiet P o es
      → Exactly [] P o es
  Quiet-Exactly P (done a) es h = h
  Quiet-Exactly P (error e) es h = subst (All IsSetup) (sym h) tt

  pub Quiet-Sets : {A : Type 0} {m : Action W A} {P : A → Type 0} → Runs m (Quiet P) → Sets m [] P
  Quiet-Sets {m} {P} h = record {
    runs = λ s. let (es, e, p) = h s in (es, e, Quiet-Exactly P (m s).0 es p);
  }

  module _ {A B : Type 0} (Q : B → Type 0) (k : A → Action W B)
      (h : (a : A) → Runs (k a) (Quiet Q)) where
    pub outside-Quiet :
        (f : W → A × W) → ((w : W) → events (f w).1 ≡ events w) → Runs (outside f >>= k) (Quiet Q)
    unfolding ◌>>=◌
    outside-Quiet f same (mocks, w) =
        let (es, e, p) = h (f w).0 (mocks, (f w).1) in (es, e ∙ ap (λ t. t ++ es) (same w), p)

    pub or_throw-Quiet : (e : RunError) (o : Option A) → Runs (or_throw e o >>= k) (Quiet Q)
    unfolding ◌>>=◌
    or_throw-Quiet e none s = ([], sym (append-nil (events s.1)), refl)
    or_throw-Quiet e (some a) s = h a s

  pub and_then-same :
      {A B : Type 0} (x : Outcome A × State W) (f : A → Action W B)
      → ((a : A) (s : State W) → events (f a s).1.1 ≡ events s.1)
      → events (and_then x f).1.1 ≡ events x.1.1
  and_then-same (done a, s) f h = h a s
  and_then-same (error e, s) f h = refl

  nothing-Exactly : {A : Type 0} (o : Outcome A) → Exactly [] (λ (a : A). Unit {0}) o []
  nothing-Exactly (done a) = (refl, tt)
  nothing-Exactly (error e) = tt

  pub same-Sets :
      {A : Type 0} (m : Action W A)
      → ((s : State W) → events (m s).1.1 ≡ events s.1)
      → Sets m [] (λ (a : A). Unit {0})
  same-Sets m h = record {
    runs = λ s. ([], h s ∙ sym (append-nil (events s.1)), nothing-Exactly (m s).0);
  }
