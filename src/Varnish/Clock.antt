-- ===== src/Varnish/Clock.antt =====
-- The clock of Varnish: the modification time of the control file, as a test's scenario moves it.
use vcltest.Base.{true, false, some, ◌≡◌, inl, inr, refl, sym, ap, ◌∙◌, subst, Bool-cases}
use vcltest.Base.Int.{ℤ, pos, ◌+ℤ◌, int_laws}
use vcltest.Base.Text.{Text, codes, is_empty}
use vcltest.Varnish.{
  Manager, ManagerError, ok, err, Disk, init_time_control, advance_time_by, get_current_fake_time,
}

-- What the program relies on of the file system: a change of a file's time that succeeds is seen, one
-- that fails changes nothing, and a path with a name at its end is not empty.
pub record KeepsTimes {W : Type 0} (disk : Disk W) : Type 0 where
  pub set :
      (p : Text) (t : ℤ) (w : W)
      → (disk.set_time p t w).0 ≡ true
      → disk.get_time p (disk.set_time p t w).1 ≡ some t
  pub unset :
      (p : Text) (t : ℤ) (w : W)
      → (disk.set_time p t w).0 ≡ false
      → disk.get_time p (disk.set_time p t w).1 ≡ disk.get_time p w
  pub filled : (dir : Text) → is_empty (disk.join dir (codes "faketime.control")) ≡ false

+ℤ_zero : (z : ℤ) → z +ℤ pos 0 ≡ z
+ℤ_zero z = grind int_laws

module _ {W : Type 0} (disk : Disk W) where
  -- The disk after calls of `AdvanceTimeBy` behind a start of the clock, with the offset of the last
  -- call that succeeded, 0 before there is one.
  pub data Advanced (now : ℤ) (m : Manager) : W → ℤ → Type 0 where
    started :
        (old : Manager) (file : Text) (w v : W)
        → init_time_control disk now old w ≡ (ok file, m, v)
        → Advanced now m v (pos 0)
    moved :
        (w v : W) (before offset : ℤ)
        → Advanced now m w before
        → advance_time_by disk offset m w ≡ (ok tt, v)
        → Advanced now m v offset
    kept :
        (w v : W) (before offset : ℤ) (e : ManagerError)
        → Advanced now m w before
        → advance_time_by disk offset m w ≡ (err e, v)
        → Advanced now m v before

  -- The clock runs: its file is known, and shows the start and the offset.
  abbrev Shows : ℤ → Manager → W → ℤ → Type 0
  Shows now m w offset =
      (is_empty m.time_control_file ≡ false)
      × (m.test_start_time ≡ now)
      × (disk.get_time m.time_control_file w ≡ some (now +ℤ offset))

  module _ (laws : KeepsTimes disk) where
    started-Shows :
        (now : ℤ) (old m : Manager) (file : Text) (w v : W)
        → init_time_control disk now old w ≡ (ok file, m, v)
        → Shows now m v (pos 0)
    unfolding init_time_control
    started-Shows now old m file w v e =
        let path = disk.join old.work_dir (codes "faketime.control") in
        elim (Bool-cases (disk.create path w).0) [
          | inr n ↦ absurd (cc (rw n at e))
          | inl y ↦ elim (Bool-cases (disk.set_time path now (disk.create path w).1).0) [
            | inr n ↦ absurd (cc (rw (y, n) at e))
            | inl z ↦
                let q = rw (y, z) at e in
                subst (λ (x : Manager × W). Shows now x.0 x.1 (pos 0)) (ap (λ x. (x.1, x.2)) q)
                  (
                    laws.filled old.work_dir,
                    refl,
                    laws.set path now _ z ∙ ap some (sym (+ℤ_zero now)),
                  )
          ]
        ]

    moved-Shows :
        (now : ℤ) (m : Manager) (w v : W) (before offset : ℤ)
        → Shows now m w before
        → advance_time_by disk offset m w ≡ (ok tt, v)
        → Shows now m v offset
    unfolding advance_time_by
    moved-Shows now m w v before offset (f, s, t) e =
        elim (Bool-cases (disk.set_time m.time_control_file (m.test_start_time +ℤ offset) w).0) [
          | inr n ↦ absurd (cc (rw (f, n) at e))
          | inl y ↦
              subst (λ x. Shows now m x offset) (ap (λ x. x.1) (rw (f, y) at e))
                (f, s, laws.set m.time_control_file _ w y ∙ ap (λ z. some (z +ℤ offset)) s)
        ]

    kept-Shows :
        (now : ℤ) (m : Manager) (w v : W) (before offset : ℤ) (x : ManagerError)
        → Shows now m w before
        → advance_time_by disk offset m w ≡ (err x, v)
        → Shows now m v before
    unfolding advance_time_by
    kept-Shows now m w v before offset x (f, s, t) e =
        elim (Bool-cases (disk.set_time m.time_control_file (m.test_start_time +ℤ offset) w).0) [
          | inl y ↦ absurd (cc (rw (f, y) at e))
          | inr n ↦
              subst (λ u. Shows now m u before) (ap (λ u. u.1) (rw (f, n) at e))
                (f, s, laws.unset m.time_control_file _ w n ∙ t)
        ]

    Advanced-Shows :
        (now : ℤ) (m : Manager) (w : W) (offset : ℤ)
        → Advanced now m w offset
        → Shows now m w offset
    Advanced-Shows now m w offset (started old file u v e) = started-Shows now old m file u w e
    Advanced-Shows now m w offset (moved u v before o h e) =
        moved-Shows now m u w before offset (Advanced-Shows now m u before h) e
    Advanced-Shows now m w offset (kept u v before o x h e) =
        kept-Shows now m u w offset o x (Advanced-Shows now m u offset h) e

    -- Behind a start at `now` and any number of advances, failed ones included, the fake time is `now`
    -- and the offset of the last advance that succeeded: offsets count from the start, not from one
    -- another.
    pub get_current_fake_time-Advanced :
        (now : ℤ) (m : Manager) (w : W) (offset : ℤ)
        → Advanced now m w offset
        → get_current_fake_time disk m w ≡ some (now +ℤ offset)
    unfolding get_current_fake_time
    get_current_fake_time-Advanced now m w offset h =
        let (f, s, t) = Advanced-Shows now m w offset h in rw f t
