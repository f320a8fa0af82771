-- ===== src/Testspec/Files.antt =====
-- `Load` over a whole test file: what it returns, and which error comes first.
use vcltest.Base.{
  ◌≡◌, ◌≢◌, refl, sym, ◌∙◌, inl, inr, Option, none, some, List, [], ◌∷◌, ◌++◌, ℕ, suc, ◌+◌, All,
  All-append, arith, Option-cases, map, append_assoc, append-nil, length, subst,
}
use vcltest.Testspec.{TestSpec}
use vcltest.Testspec.Loader.{
  apply_defaults, validate, Invalid, Decoded, document, failed, loaded, load_error, parse_error,
  invalid, load, load_documents,
}
use vcltest.Testspec.Loading.{
  IsTest, validate_iff, apply_defaults-apply_defaults, apply_defaults-IsTest,
}

-- The documents of a file that decodes throughout.
abbrev pub documents : List TestSpec → List Decoded
documents ts = map (λ t. document t) ts

load_documents-valid :
    (n : ℕ) (tests : List TestSpec) (t : TestSpec) (ds : List Decoded)
    → validate t ≡ none
    → load_documents n tests (document t ∷ ds)
      ≡ load_documents (n + 1) (tests ++ apply_defaults t ∷ []) ds
unfolding load_documents
load_documents-valid n tests t ds e = rw (e, load_documents) refl

load_documents-invalid :
    (n : ℕ) (tests : List TestSpec) (t : TestSpec) (ds : List Decoded) (e : Invalid)
    → validate t ≡ some e
    → load_documents n tests (document t ∷ ds) ≡ load_error (invalid (n + 1) e)
unfolding load_documents
load_documents-invalid n tests t ds e v = rw (v, load_documents) refl

load_documents-documents :
    (n : ℕ) (tests ts : List TestSpec) (rest : List Decoded)
    → All IsTest ts
    → load_documents n tests (documents ts ++ rest)
      ≡ load_documents (n + length ts) (tests ++ map apply_defaults ts) rest
load_documents-documents n tests [] rest h =
    let e : n + 0 ≡ n = omega arith in rw (append-nil tests, e) refl
load_documents-documents n tests (t ∷ ts) rest (i, h) =
    let e : n + suc (length ts) ≡ n + 1 + length ts = omega arith in
    load_documents-valid n tests t (documents ts ++ rest) ((validate_iff t).1 i)
    ∙ load_documents-documents (n + 1) (tests ++ apply_defaults t ∷ []) ts rest h
    ∙ rw (append_assoc tests (apply_defaults t ∷ []) (map apply_defaults ts), e) refl

load_documents-nil : (n : ℕ) (ts : List TestSpec) → ts ≢ [] → load_documents n ts [] ≡ loaded ts
unfolding load_documents
load_documents-nil n [] h = absurd (h refl)
load_documents-nil n (t ∷ ts) h = refl

map-ne-nil : (ts : List TestSpec) → ts ≢ [] → map apply_defaults ts ≢ []
map-ne-nil [] h = h
map-ne-nil (t ∷ ts) h = λ e. cc

load-prefix :
    (ts : List TestSpec) (rest : List Decoded)
    → All IsTest ts
    → load (some (documents ts ++ rest)) ≡ load_documents (length ts) (map apply_defaults ts) rest
unfolding load
load-prefix ts rest h =
    let e : 0 + length ts ≡ length ts = omega arith in
    load_documents-documents 0 [] ts rest h ∙ rw e refl

-- A file of valid tests, at least one, loads to those tests in their order, each with the defaults
-- applied.
pub load-documents :
    (ts : List TestSpec)
    → ts ≢ []
    → All IsTest ts
    → load (some (documents ts)) ≡ loaded (map apply_defaults ts)
load-documents ts some_test h =
    subst (λ ds. load (some ds) ≡ loaded (map apply_defaults ts)) (append-nil (documents ts))
      (load-prefix ts [] h
        ∙ load_documents-nil (length ts) (map apply_defaults ts) (map-ne-nil ts some_test))

load_documents-failed :
    (n : ℕ) (tests : List TestSpec) (ds : List Decoded)
    → load_documents n tests (failed ∷ ds) ≡ load_error (parse_error (n + 1))
unfolding load_documents
load_documents-failed n tests ds = refl

-- The first document that cannot be decoded, or is not valid, is the one that is reported, with its
-- number in the file, whatever comes after it.
pub load_first_error :
    (ts : List TestSpec) (rest : List Decoded)
    → All IsTest ts
    → (load (some (documents ts ++ failed ∷ rest)) ≡ load_error (parse_error (length ts + 1)))
      × ((t : TestSpec) (e : Invalid)
          → validate t ≡ some e
          → load (some (documents ts ++ document t ∷ rest))
            ≡ load_error (invalid (length ts + 1) e))
load_first_error ts rest h = (
  load-prefix ts (failed ∷ rest) h ∙ load_documents-failed (length ts) _ rest,
  λ t e v. load-prefix ts (document t ∷ rest) h ∙ load_documents-invalid (length ts) _ t rest e v,
)

-- A test that is ready to run: valid, with nothing left to default.
abbrev pub IsReady : TestSpec → Type 0
IsReady t = IsTest t × (apply_defaults t ≡ t)

load_documents_end :
    (n : ℕ) (tests ts : List TestSpec)
    → All IsReady tests
    → load_documents n tests [] ≡ loaded ts
    → (ts ≢ []) × All IsReady ts
unfolding load_documents
load_documents_end n [] ts h e = absurd cc
load_documents_end n (t ∷ tests) ts h e =
    let q : t ∷ tests ≡ ts = cc in subst (λ us. (us ≢ []) × All IsReady us) q ((λ x. cc), h)

load_documents-IsReady :
    (ds : List Decoded) (n : ℕ) (tests ts : List TestSpec)
    → All IsReady tests
    → load_documents n tests ds ≡ loaded ts
    → (ts ≢ []) × All IsReady ts
load_documents-IsReady [] n tests ts h e = load_documents_end n tests ts h e
load_documents-IsReady (failed ∷ ds) n tests ts h e =
    absurd (cc (load_documents-failed n tests ds, e))
load_documents-IsReady (document t ∷ ds) n tests ts h e = elim (Option-cases (validate t)) [
  | inl v ↦
      load_documents-IsReady ds (n + 1) (tests ++ apply_defaults t ∷ []) ts
        (All-append IsReady tests (apply_defaults t ∷ []) h
          ((apply_defaults-IsTest t ((validate_iff t).0 v), apply_defaults-apply_defaults t), tt))
        (sym (load_documents-valid n tests t ds v) ∙ e)
  | inr (bad, v) ↦ absurd (cc (load_documents-invalid n tests t ds bad v, e))
]

-- Whatever a file holds, the tests that are loaded from it are at least one, each valid and with
-- nothing left to default.
pub load-IsReady :
    (file : Option (List Decoded)) (ts : List TestSpec)
    → load file ≡ loaded ts
    → (ts ≢ []) × All IsReady ts
unfolding load
load-IsReady none ts e = absurd cc
load-IsReady (some ds) ts e = load_documents-IsReady ds 0 [] ts tt e
