-- ===== src/Vclmod/Walk.antt =====
-- What `ProcessVCLWithIncludes` returns.
use vcltest.Base.{
  Bool, true, false, Any, ◌≡◌, refl, ap, sym, ◌∙◌, inl, inr, some, List, [], ◌∷◌, ℕ, zero, suc, In,
  Distinct, All, contains, contains_iff, Bool-cases, Option-cases, append_assoc, subst,
}
use vcltest.Base.Map.{Map, keys, lookup, is_some, is_some-lookup_iff}
use vcltest.Base.Text.{Text, text_eq}
use vcltest.Harness.{BackendAddress}
use vcltest.Vclmod.{
  Declaration, backend, include, other, modify_declarations, validate_names, ValidationResult,
  has_errors, Missing, check_names,
}
use vcltest.Vclmod.Includes.{
  Files, ProcessedFile, Walker, Walked, walked, failed, walk_includes, add_file, walk_path,
  walk_file, max_include_depth, new_walker, validate_walk, process_vcl_with_includes,
}
use vcltest.Vclmod.Names.{missing_names, unknown, check_names-errors, collect_backends-In}
use vcltest.Vclmod.Growth.{
  paths, Declares, IncludedIn, IsComplete, IsWalk, Grows, Grows-refl, Grows-trans, IsComplete-more,
  add_file-IsWalk, walked_cases,
}

no_errors :
    (errors : List Missing) → elim errors [ [] ↦ false | e ∷ es ↦ true ] ≡ false → errors ≡ []
no_errors [] h = refl
no_errors (e ∷ es) h = absurd (cc h)

unknown-nil :
    (found : Map Text Bool) (names : List Text) (name : Text)
    → unknown found names ≡ []
    → In name names
    → In name (keys found)
unknown-nil found [] name h m = absurd m
unknown-nil found (key ∷ names) name h m = elim (Bool-cases (is_some (lookup key found))) [
  | inl e ↦ elim m [
    | inl q ↦ subst (λ x. In x (keys found)) (sym q) ((is_some-lookup_iff key found).0 e)
    | inr k ↦ unknown-nil found names name (rw e at h) k
  ]
  | inr e ↦ absurd (cc (rw e at h))
]

module _ (fs : Files) (addresses : Map Text BackendAddress) where
  module _ (visit : Text → Walker → Walked Walker)
      (visits : (path : Text) (w w' : Walker)
        → visit path w ≡ walked w'
        → Grows fs addresses w w'
          × ((p : Text) × (fs.absolute path ≡ some p) × In p w'.visited)) where
    walk_includes-Grows :
        (path : Text) (ds : List Declaration) (w w' : Walker)
        → walk_includes visit (fs.resolve path) ds w ≡ walked w'
        → Grows fs addresses w w' × All (IncludedIn fs addresses w'.visited path) ds
    unfolding walk_includes
    walk_includes-Grows path [] w w' e =
        let q : w ≡ w' = cc in (subst (Grows fs addresses w) q (Grows-refl fs addresses w), tt)
    walk_includes-Grows path (backend d ∷ ds) w w' e =
        let (g, a) = walk_includes-Grows path ds w w' e in (g, (tt, a))
    walk_includes-Grows path (other s ∷ ds) w w' e =
        let (g, a) = walk_includes-Grows path ds w w' e in (g, (tt, a))
    walk_includes-Grows path (include q ∷ ds) w w' e =
        elim (walked_cases fs addresses (visit (fs.resolve path q) w)) [
          | inl (v, h) ↦
              let (g, (p, ep, m)) = visits (fs.resolve path q) w v h in
              let (k, a) = walk_includes-Grows path ds v w' (rw (h, walk_includes) at e) in
              (Grows-trans fs addresses w v w' g k, ((p, ep, k.visited p m), a))
          | inr (x, h) ↦ absurd (cc (rw (h, walk_includes) at e))
        ]

    -- A file that was added, with all below it.
    add_file-Grows :
        (path source : Text) (ds : List Declaration) (w w' : Walker)
        → ¬ In path w.visited
        → fs.read path ≡ some source
        → fs.parse source path ≡ some ds
        → walk_includes visit (fs.resolve path) ds (add_file fs addresses path ds w) ≡ walked w'
        → Grows fs addresses w w' × In path w'.visited
    unfolding add_file
    add_file-Grows path source ds w w' n r s e =
        let (g, a) = walk_includes-Grows path ds (add_file fs addresses path ds w) w' e in
        let f : ProcessedFile = record {
          absolute_path = path;
          relative_path = fs.relative path;
          content = fs.render (modify_declarations addresses ds);
        } in
        (
          record {
            more = f ∷ g.more;
            processed = g.processed ∙ append_assoc w.processed (f ∷ []) g.more;
            visited = λ p h. g.visited p (inr h);
            keeps = λ i. g.keeps (add_file-IsWalk fs addresses path ds w n i);
            complete = (
              record {
                source = source;
                declarations = ds;
                is_read = r;
                is_parsed = s;
                is_changed = refl;
                has_includes = a;
              },
              g.complete,
            );
            found = λ name h. elim (g.found name h) [
              | inl a ↦ inl (inr a)
              | inr k ↦ elim ((collect_backends-In ds w.vcl_backends name).0 k) [
                | inl d ↦ inl (inl (source, ds, r, s, d))
                | inr x ↦ inr x
              ]
            ];
          },
          g.visited path (inl refl),
        )

    walk_path-Grows :
        (path : Text) (w w' : Walker)
        → walk_path fs addresses visit path w ≡ walked w'
        → Grows fs addresses w w' × In path w'.visited
    unfolding walk_path
    walk_path-Grows path w w' e = elim (Bool-cases (contains w.visited path)) [
      | inl seen ↦
          let same : w ≡ w' = cc (rw seen at e) in
          subst (λ v. Grows fs addresses w v × In path v.visited) same
            (Grows-refl fs addresses w, (contains_iff w.visited path).0 seen)
      | inr new ↦
          let n : ¬ In path w.visited = λ h. cc ((contains_iff w.visited path).1 h, new) in
          elim (Option-cases (fs.read path)) [
            | inl r ↦ absurd (cc (rw (new, r, walk_path) at e))
            | inr (source, r) ↦ elim (Option-cases (fs.parse source path)) [
              | inl s ↦ absurd (cc (rw (new, r, s, walk_path) at e))
              | inr (ds, s) ↦
                  add_file-Grows path source ds w w' n r s (rw (new, r, s, walk_path) at e)
            ]
          ]
    ]

  walk_file-Grows :
      (left : ℕ) (path : Text) (w w' : Walker)
      → walk_file fs addresses left path w ≡ walked w'
      → Grows fs addresses w w' × ((p : Text) × (fs.absolute path ≡ some p) × In p w'.visited)
  unfolding walk_file
  walk_file-Grows zero path w w' e = absurd cc
  walk_file-Grows (suc left) path w w' e = elim (Option-cases (fs.absolute path)) [
    | inl a ↦ absurd (cc (rw (a, walk_file) at e))
    | inr (p, a) ↦
        let (g, m) =
          walk_path-Grows (λ q v. walk_file fs addresses left q v) (walk_file-Grows left) p w w'
            (rw (a, walk_file) at e) in
        (g, (p, a, m))
  ]

  validate_walk-walked :
      (r : Walked Walker) (files : List ProcessedFile) (result : ValidationResult)
      → validate_walk fs addresses r ≡ walked (files, result)
      → (w : Walker) × (r ≡ walked w)
        × (files ≡ w.processed)
        × (result ≡ validate_names w.vcl_backends addresses)
        × (has_errors result ≡ false)
  unfolding validate_walk
  validate_walk-walked (failed x) files result e = absurd cc
  validate_walk-walked (walked w) files result e =
      elim (Bool-cases (has_errors (validate_names w.vcl_backends addresses))) [
        | inl h ↦ absurd (cc (rw h at e))
        | inr h ↦
            let k = rw h at e in
            let same : ◌≡◌ {A = List ProcessedFile × ValidationResult}
                (w.processed, validate_names w.vcl_backends addresses) (files, result) =
              cc k in
            (
              w,
              refl,
              sym (ap (λ x. x.0) same),
              sym (ap (λ x. x.1) same),
              subst (λ x. has_errors x ≡ false) (ap (λ x. x.1) same) h,
            )
      ]

  validate_names-known :
      (found : Map Text Bool) (as' : Map Text BackendAddress) (name : Text)
      → has_errors (validate_names found as') ≡ false
      → In name (keys as')
      → In name (keys found)
  unfolding validate_names
  validate_names-known found as' name h m =
      unknown-nil found (keys as') name
        (sym (check_names-errors (keys found) (keys as') found)
          ∙ ap missing_names (no_errors (check_names (keys found) (keys as') found).0 h))
        m

  no-IsWalk : IsWalk fs addresses (new_walker fs addresses)
  no-IsWalk = record { apart = tt; same = λ p. (λ h. h, λ h. h) }

  -- The files that are returned: the main file is one of them, no path stands twice, each is the
  -- changed form of what is at its path, and every file that one of them includes is among them. Each
  -- backend of the test is declared in one of them, and no error is reported.
  pub process_vcl_with_includes_correct :
      (path : Text) (files : List ProcessedFile) (result : ValidationResult)
      → process_vcl_with_includes fs addresses path ≡ walked (files, result)
      → ((p : Text) × (fs.absolute path ≡ some p) × In p (paths files))
        × Distinct (paths files)
        × All (IsComplete fs addresses (paths files)) files
        × ((name : Text) → In name (keys addresses) → Any (Declares fs addresses name) files)
        × (has_errors result ≡ false)
  unfolding process_vcl_with_includes
  process_vcl_with_includes_correct path files result e =
      let start = new_walker fs addresses in
      let (w, r, q, v, none_missing) = validate_walk-walked _ files result e in
      let (g, (p, a, m)) = walk_file-Grows (max_include_depth fs addresses) path start w r in
      let i = g.keeps no-IsWalk in
      let c =
        IsComplete-more fs addresses w.visited (paths w.processed) g.more (λ x h. (i.same x).0 h)
          g.complete in
      let all : All (IsComplete fs addresses (paths w.processed)) w.processed =
        subst (λ ps. All (IsComplete fs addresses (paths w.processed)) ps) (sym g.processed) c in
      (
        subst (λ fs'. (x : Text) × (fs.absolute path ≡ some x) × In x (paths fs')) (sym q)
            (p, a, (i.same p).0 m),
        subst (λ fs'. Distinct (paths fs')) (sym q) i.apart,
        subst (λ fs'. All (IsComplete fs addresses (paths fs')) fs') (sym q) all,
        λ name m.
            let known =
              validate_names-known w.vcl_backends addresses name
                (subst (λ x. has_errors x ≡ false) v none_missing) m in
            elim (g.found name known) [
              | inl a ↦ subst (Any (Declares fs addresses name)) (sym (q ∙ g.processed)) a
              | inr x ↦ absurd x
            ],
        none_missing,
      )
