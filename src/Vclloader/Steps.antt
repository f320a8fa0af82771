-- ===== src/Vclloader/Steps.antt =====
-- How a load of the VCL goes, step by step.
use vcltest.Base.{
  Bool, true, false, Option, none, some, ◌≡◌, ◌≢◌, refl, sym, ap, subst, Bool-cases, inl, inr,
  nat_beq, arith,
}
use vcltest.Base.Text.{Text, codes, text_beq}
use vcltest.Events.{ProcessEvent, vcl_loaded, process_error}
use vcltest.Runner.{VclShowResult}
use vcltest.Varnishadm.{VarnishResponse, clis_ok}
use vcltest.Vclloader.Load.{
  LoaderError, unresolved, missing, no_cwd, not_changed, load_lost, not_compiled, use_lost,
  not_activated, no_mapping, Loader, Site, Left, after, answered_ok, load_unless_boot,
  publish_loaded, use_and_show, in_directory, from_home, resolve, load_vcl,
}

-- The answer of a command: none, a status other than 200, or 200.
abbrev pub IsRefused : Option VarnishResponse → Type 0
IsRefused o = (r : VarnishResponse) × (o ≡ some r) × (r.status_code ≢ clis_ok)

abbrev pub IsAccepted : Option VarnishResponse → Type 0
IsAccepted o = (r : VarnishResponse) × (o ≡ some r) × (r.status_code ≡ clis_ok)

abbrev pub failure : LoaderError → ProcessEvent LoaderError
failure e = process_error (codes "vcl-loader") e

module _ {W : Type 0} (site : Site W) (l : Loader) where
  -- From a state with the VCL in Varnish: it is made the active one, then its mapping is asked for and
  -- published. The event is the one that the load comes to.
  pub data Used (path : Text) (w : W) : ProcessEvent LoaderError → Left W → Type 0 where
    use_failed :
        (site.vcl_use l.vcl_name w).0 ≡ none
        → Used path w (failure use_lost) (some use_lost, (site.vcl_use l.vcl_name w).1)
    use_refused :
        IsRefused (site.vcl_use l.vcl_name w).0
        → Used path w (failure not_activated) (some not_activated, (site.vcl_use l.vcl_name w).1)
    unmapped :
        (v : W)
        → IsAccepted (site.vcl_use l.vcl_name w).0
        → v ≡ (site.vcl_use l.vcl_name w).1
        → (site.vcl_show l.vcl_name v).0 ≡ none
        → Used path w (failure no_mapping) (some no_mapping, (site.vcl_show l.vcl_name v).1)
    mapped :
        (v : W) (mapping : VclShowResult)
        → IsAccepted (site.vcl_use l.vcl_name w).0
        → v ≡ (site.vcl_use l.vcl_name w).1
        → (site.vcl_show l.vcl_name v).0 ≡ some mapping
        → Used path w
            (vcl_loaded l.vcl_name path mapping)
            (none, site.publish (vcl_loaded l.vcl_name path mapping) (site.vcl_show l.vcl_name v).1)

  -- In the directory of the VCL: it is loaded first, unless it is the one that varnishd has booted with.
  pub data Inside (path : Text) (w : W) : ProcessEvent LoaderError → Left W → Type 0 where
    booted :
        {e : ProcessEvent LoaderError} {x : Left W}
        → text_beq l.vcl_name (codes "boot") ≡ true
        → Used path w e x
        → Inside path w e x
    load_failed :
        text_beq l.vcl_name (codes "boot") ≡ false
        → (site.vcl_load l.vcl_name path w).0 ≡ none
        → Inside path w (failure load_lost) (some load_lost, (site.vcl_load l.vcl_name path w).1)
    load_refused :
        text_beq l.vcl_name (codes "boot") ≡ false
        → IsRefused (site.vcl_load l.vcl_name path w).0
        → Inside path w
            (failure not_compiled)
            (some not_compiled, (site.vcl_load l.vcl_name path w).1)
    compiled :
        {e : ProcessEvent LoaderError} {x : Left W}
        → text_beq l.vcl_name (codes "boot") ≡ false
        → IsAccepted (site.vcl_load l.vcl_name path w).0
        → Used path (site.vcl_load l.vcl_name path w).1 e x
        → Inside path w e x

  -- A whole load: once the process is in the directory of the file, it changes back at the end to the
  -- one that it was in, whether the rest has succeeded or not.
  pub data Loading (w : W) : ProcessEvent LoaderError → Left W → Type 0 where
    no_path : site.abs l.vcl_path w ≡ none → Loading w (failure unresolved) (some unresolved, w)
    no_file :
        (path : Text)
        → site.abs l.vcl_path w ≡ some path
        → site.is_missing path w ≡ true
        → Loading w (failure missing) (some missing, w)
    no_home :
        (path : Text)
        → site.abs l.vcl_path w ≡ some path
        → site.is_missing path w ≡ false
        → site.getwd w ≡ none
        → Loading w (failure no_cwd) (some no_cwd, w)
    shut :
        (path home : Text)
        → site.abs l.vcl_path w ≡ some path
        → site.is_missing path w ≡ false
        → site.getwd w ≡ some home
        → (site.chdir (site.dir path) w).0 ≡ false
        → Loading w (failure not_changed) (some not_changed, (site.chdir (site.dir path) w).1)
    entered :
        (path home : Text) {e : ProcessEvent LoaderError} {o : Option LoaderError} {v : W}
        → site.abs l.vcl_path w ≡ some path
        → site.is_missing path w ≡ false
        → site.getwd w ≡ some home
        → (site.chdir (site.dir path) w).0 ≡ true
        → Inside path (site.chdir (site.dir path) w).1 e (o, v)
        → Loading w e (o, (site.chdir home v).1)

  abbrev pub Comes : (ProcessEvent LoaderError → Left W → Type 0) → Left W → Type 0
  Comes R x = (e : ProcessEvent LoaderError) × R e x

  published-Used :
      (path : Text) (w : W)
      → IsAccepted (site.vcl_use l.vcl_name w).0
      → (x : Option VclShowResult × W) → site.vcl_show l.vcl_name (site.vcl_use l.vcl_name w).1 ≡ x
      → Comes (Used path w) (publish_loaded site l path x)
  published-Used path w a (none, u) q = (
    _,
    subst (λ v. Used path w (failure no_mapping) (some no_mapping, v)) (ap (λ y. y.1) q)
        (unmapped _ a refl (ap (λ y. y.0) q)),
  )
  published-Used path w a (some mapping, u) q =
      let e = vcl_loaded l.vcl_name path mapping in
      (
        e,
        subst (λ v. Used path w e (none, site.publish e v)) (ap (λ y. y.1) q)
            (mapped _ mapping a refl (ap (λ y. y.0) q)),
      )

  answered_ok-Used :
      (path : Text) (w : W) (x : Option VarnishResponse × W)
      → site.vcl_use l.vcl_name w ≡ x
      → Comes (Used path w) (
          after
            (answered_ok use_lost not_activated x)
            (λ v. publish_loaded site l path (site.vcl_show l.vcl_name v)))
  answered_ok-Used path w (none, u) q = (
    _,
    subst (λ v. Used path w (failure use_lost) (some use_lost, v)) (ap (λ y. y.1) q)
        (use_failed (ap (λ y. y.0) q)),
  )
  answered_ok-Used path w (some r, u) q = elim (Bool-cases (nat_beq r.status_code clis_ok)) [
    | inl y ↦ rw y (
        subst (λ v. Comes (Used path w) (publish_loaded site l path (site.vcl_show l.vcl_name v)))
          (ap (λ y. y.1) q) (published-Used path w (r, ap (λ y. y.0) q, ground arith) _ refl))
    | inr n ↦ rw n (
      _,
      subst (λ v. Used path w (failure not_activated) (some not_activated, v)) (ap (λ y. y.1) q)
          (use_refused (r, ap (λ y. y.0) q, ground arith)),
    )
  ]

  use_and_show-Used : (path : Text) (w : W) → Comes (Used path w) (use_and_show site l path w)
  unfolding use_and_show
  use_and_show-Used path w = answered_ok-Used path w (site.vcl_use l.vcl_name w) refl

  loaded-Inside :
      (path : Text) (w : W) (x : Option VarnishResponse × W)
      → text_beq l.vcl_name (codes "boot") ≡ false
      → site.vcl_load l.vcl_name path w ≡ x
      → Comes
          (Inside path w)
          (after (answered_ok load_lost not_compiled x) (use_and_show site l path))
  loaded-Inside path w (none, u) b q = (
    _,
    subst (λ v. Inside path w (failure load_lost) (some load_lost, v)) (ap (λ y. y.1) q)
        (load_failed b (ap (λ y. y.0) q)),
  )
  loaded-Inside path w (some r, u) b q = elim (Bool-cases (nat_beq r.status_code clis_ok)) [
    | inl y ↦ rw y (
        let (e, h) = use_and_show-Used path u in
        (
          e,
          compiled b (r, ap (λ y. y.0) q, ground arith)
              (subst (λ v. Used path v e (use_and_show site l path u)) (sym (ap (λ y. y.1) q)) h),
        ))
    | inr n ↦ rw n (
      _,
      subst (λ v. Inside path w (failure not_compiled) (some not_compiled, v)) (ap (λ y. y.1) q)
          (load_refused b (r, ap (λ y. y.0) q, ground arith)),
    )
  ]

  put-Inside :
      (path : Text) (w : W)
      → Comes (Inside path w) (after (load_unless_boot site l path w) (use_and_show site l path))
  unfolding load_unless_boot
  put-Inside path w = elim (Bool-cases (text_beq l.vcl_name (codes "boot"))) [
    | inl y ↦ rw y (let (e, h) = use_and_show-Used path w in (e, booted y h))
    | inr n ↦ rw n (loaded-Inside path w (site.vcl_load l.vcl_name path w) n refl)
  ]

  entered-Loading :
      (path home : Text) (w : W) (x : Bool × W)
      → site.abs l.vcl_path w ≡ some path
      → site.is_missing path w ≡ false
      → site.getwd w ≡ some home
      → site.chdir (site.dir path) w ≡ x
      → Comes (Loading w) (in_directory site l path home x)
  entered-Loading path home w (false, u) a m g q = (
    _,
    subst (λ v. Loading w (failure not_changed) (some not_changed, v)) (ap (λ y. y.1) q)
        (shut path home a m g (ap (λ y. y.0) q)),
  )
  entered-Loading path home w (true, u) a m g q =
      let (e, h) = put-Inside path u in
      (
        e,
        entered path home a m g (ap (λ y. y.0) q) (
            subst
              (λ v.
                Inside path v e (after (load_unless_boot site l path u) (use_and_show site l path)))
              (sym (ap (λ y. y.1) q)) h),
      )

  home-Loading :
      (path : Text) (w : W) (o : Option Text)
      → site.abs l.vcl_path w ≡ some path
      → site.is_missing path w ≡ false
      → site.getwd w ≡ o
      → Comes (Loading w) (from_home site l path o w)
  home-Loading path w none a m g = (_, no_home path a m g)
  home-Loading path w (some home) a m g = entered-Loading path home w _ a m g refl

  resolve-Loading :
      (w : W) (o : Option Text) → site.abs l.vcl_path w ≡ o → Comes (Loading w) (resolve site l o w)
  resolve-Loading w none a = (_, no_path a)
  resolve-Loading w (some path) a = elim (Bool-cases (site.is_missing path w)) [
    | inl y ↦ rw y (_, no_file path a y)
    | inr n ↦ rw n (home-Loading path w (site.getwd w) a n refl)
  ]

  pub load_vcl-Loading : (w : W) → Comes (Loading w) (load_vcl site l w)
  unfolding load_vcl
  load_vcl-Loading w = resolve-Loading w (site.abs l.vcl_path w) refl
