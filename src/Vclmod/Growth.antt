-- ===== src/Vclmod/Growth.antt =====
-- How a walk grows: the files that it adds, the paths that it keeps apart.
use vcltest.Base.{
  ◌≡◌, refl, ap, sym, ◌∙◌, ◌↔◌, ◌⊎◌, inl, inr, some, List, [], ◌∷◌, ◌++◌, map, In, In-append_left,
  In-append_right, In-append_cases, Distinct, All, All-append, Any, Any-append_left,
  Any-append_right, append-nil, append_assoc, subst,
}
use mathlib.Core.List.{map-append}
use vcltest.Base.Map.{Map, keys}
use vcltest.Base.Text.{Text, text_eq}
use vcltest.Harness.{BackendAddress}
use vcltest.Vclmod.{Declaration, backend, include, other, modify_declarations}
use vcltest.Vclmod.Names.{declared}
use vcltest.Vclmod.Includes.{
  Files, ProcessedFile, Walker, WalkError, Walked, walked, failed, add_file,
}

abbrev pub paths : List ProcessedFile → List Text
paths ps = map (λ (f : ProcessedFile). f.absolute_path) ps

Distinct-snoc : (xs : List Text) (x : Text) → Distinct xs → ¬ In x xs → Distinct (xs ++ x ∷ [])
Distinct-snoc [] x d n = ((λ h. h), tt)
Distinct-snoc (y ∷ ys) x (m, d) n = (
  λ h. elim (In-append_cases y ys (x ∷ []) h) [
    | inl k ↦ m k
    | inr (inl e) ↦ n (inl (sym e))
    | inr (inr k) ↦ absurd k
  ],
  Distinct-snoc ys x d (λ k. n (inr k)),
)

module _ (fs : Files) (addresses : Map Text BackendAddress) where
  -- The file that a declaration includes is among the paths.
  abbrev pub IncludedIn : List Text → Text → Declaration → Type 0
  IncludedIn seen path (backend d) = Unit
  IncludedIn seen path (other source) = Unit
  IncludedIn seen path (include q) =
      (p : Text) × (fs.absolute (fs.resolve path q) ≡ some p) × In p seen

  -- The file is the changed form of what is at its path, and all it includes is among the paths.
  pub record IsComplete (seen : List Text) (f : ProcessedFile) : Type 0 where
    pub source : Text
    pub declarations : List Declaration
    pub is_read : fs.read f.absolute_path ≡ some source
    pub is_parsed : fs.parse source f.absolute_path ≡ some declarations
    pub is_changed : f.content ≡ fs.render (modify_declarations addresses declarations)
    pub has_includes : All (IncludedIn seen f.absolute_path) declarations

  -- What is at the file's path declares a backend of that name.
  abbrev pub Declares : Text → ProcessedFile → Type 0
  Declares name f =
      (source : Text) × (ds : List Declaration) × (fs.read f.absolute_path ≡ some source)
      × (fs.parse source f.absolute_path ≡ some ds)
      × In name (declared ds)

  -- The walker keeps each visited path once.
  pub record IsWalk (w : Walker) : Type 0 where
    pub apart : Distinct (paths w.processed)
    pub same : (p : Text) → In p w.visited ↔ In p (paths w.processed)

  pub record Grows (w w' : Walker) : Type 0 where
    pub more : List ProcessedFile
    pub processed : w'.processed ≡ w.processed ++ more
    pub visited : (p : Text) → In p w.visited → In p w'.visited
    pub keeps : IsWalk w → IsWalk w'
    pub complete : All (IsComplete w'.visited) more
    pub found :
        (name : Text)
        → In name (keys w'.vcl_backends)
        → Any (Declares name) more ⊎ In name (keys w.vcl_backends)

  pub Grows-refl : (w : Walker) → Grows w w
  Grows-refl w = record {
    more = [];
    processed = sym (append-nil w.processed);
    visited = λ p h. h;
    keeps = λ i. i;
    complete = tt;
    found = λ name h. inr h;
  }

  IncludedIn-more :
      (seen seen' : List Text) (path : Text) (ds : List Declaration)
      → ((p : Text) → In p seen → In p seen')
      → All (IncludedIn seen path) ds
      → All (IncludedIn seen' path) ds
  IncludedIn-more seen seen' path [] h a = tt
  IncludedIn-more seen seen' path (backend d ∷ ds) h (x, a) =
      (tt, IncludedIn-more seen seen' path ds h a)
  IncludedIn-more seen seen' path (other s ∷ ds) h (x, a) =
      (tt, IncludedIn-more seen seen' path ds h a)
  IncludedIn-more seen seen' path (include q ∷ ds) h ((p, e, m), a) =
      ((p, e, h p m), IncludedIn-more seen seen' path ds h a)

  pub IsComplete-more :
      (seen seen' : List Text) (ps : List ProcessedFile)
      → ((p : Text) → In p seen → In p seen')
      → All (IsComplete seen) ps
      → All (IsComplete seen') ps
  IsComplete-more seen seen' [] h a = tt
  IsComplete-more seen seen' (f ∷ ps) h (c, a) = (
    record {
      source = c.source;
      declarations = c.declarations;
      is_read = c.is_read;
      is_parsed = c.is_parsed;
      is_changed = c.is_changed;
      has_includes = IncludedIn-more seen seen' f.absolute_path c.declarations h c.has_includes;
    },
    IsComplete-more seen seen' ps h a,
  )

  pub Grows-trans : (w w' w'' : Walker) → Grows w w' → Grows w' w'' → Grows w w''
  Grows-trans w w' w'' g k = record {
    more = g.more ++ k.more;
    processed =
        k.processed ∙ ap (λ ps. ps ++ k.more) g.processed ∙ append_assoc w.processed g.more k.more;
    visited = λ p h. k.visited p (g.visited p h);
    keeps = λ i. k.keeps (g.keeps i);
    complete =
        All-append (IsComplete w''.visited) g.more k.more
          (IsComplete-more w'.visited w''.visited g.more k.visited g.complete) k.complete;
    found = λ name h. elim (k.found name h) [
      | inl a ↦ inl (Any-append_right (Declares name) g.more k.more a)
      | inr x ↦ elim (g.found name x) [
        | inl a ↦ inl (Any-append_left (Declares name) g.more k.more a)
        | inr y ↦ inr y
      ]
    ];
  }

  pub walked_cases :
      (r : Walked Walker) → ((w : Walker) × (r ≡ walked w)) ⊎ ((x : WalkError) × (r ≡ failed x))
  walked_cases (walked w) = inl (w, refl)
  walked_cases (failed x) = inr (x, refl)

  pub add_file-IsWalk :
      (path : Text) (ds : List Declaration) (w : Walker)
      → ¬ In path w.visited
      → IsWalk w
      → IsWalk (add_file fs addresses path ds w)
  unfolding add_file
  add_file-IsWalk path ds w n i =
      let f : ProcessedFile = record {
        absolute_path = path;
        relative_path = fs.relative path;
        content = fs.render (modify_declarations addresses ds);
      } in
      let q : paths (w.processed ++ f ∷ []) ≡ paths w.processed ++ path ∷ [] =
        map-append (λ (x : ProcessedFile). x.absolute_path) w.processed (f ∷ []) in
      record {
        apart = subst Distinct (sym q) (Distinct-snoc _ path i.apart (λ h. n ((i.same path).1 h)));
        same = λ p. (
          λ h. subst (In p) (sym q) (elim h [
            | inl e ↦ In-append_right p (paths w.processed) (path ∷ []) (inl e)
            | inr k ↦ In-append_left p (paths w.processed) (path ∷ []) ((i.same p).0 k)
          ]),
          λ h. elim (In-append_cases p (paths w.processed) (path ∷ []) (subst (In p) q h)) [
            | inl k ↦ inr ((i.same p).1 k)
            | inr (inl e) ↦ inl e
            | inr (inr k) ↦ absurd k
          ],
        );
      }
