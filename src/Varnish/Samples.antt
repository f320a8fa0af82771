-- ===== src/Varnish/Samples.antt =====
-- Runs of the control of the clock.
use vcltest.Base.{true, false, Option, none, some, [], ◌∷◌, ◌++◌, ◌≡◌, refl, ℕ}
use vcltest.Base.Int.{ℤ, pos, ◌+ℤ◌}
use vcltest.Base.Text.{Text, codes, is_empty}
use vcltest.Varnish.{Manager, Disk, new, init_time_control, advance_time_by, get_current_fake_time}
use vcltest.Varnish.Clock.{KeepsTimes, Advanced, started, moved, get_current_fake_time-Advanced}

-- A disk with one file, of which it keeps the time.
abbrev disk : Disk (Option ℤ)
disk = record {
  make_dirs = λ p w. (true, w);
  permit = λ p w. (true, w);
  write_file = λ p t w. (true, w);
  create = λ p w. (true, w);
  set_time = λ p t w. (true, some t);
  get_time = λ p w. w;
  exists = λ p w. true;
  join = λ p q. p ++ b'/' ∷ q;
}

named : (dir : Text) (c : ℕ) (s : Text) → is_empty (dir ++ c ∷ s) ≡ false
named [] c s = refl
named (d ∷ dir) c s = refl

disk-KeepsTimes : KeepsTimes disk
disk-KeepsTimes = record {
  set = λ p t w h. refl;
  unset = λ p t w h. absurd (cc h);
  filled = λ dir. named dir _ _;
}

abbrev ready : Manager
unfolding new
ready = record (new (disk.join) (codes "/w") []) {
  time_control_file = codes "/w/faketime.control";
  test_start_time = pos 1000;
}

twice_moved : Advanced disk (pos 1000) ready (some (pos 1005)) (pos 5)
unfolding init_time_control advance_time_by new ◌+ℤ◌
twice_moved =
    moved (some (pos 1030)) (some (pos 1005)) (pos 30) (pos 5)
      (moved (some (pos 1000)) (some (pos 1030)) (pos 0) (pos 30)
        (started (new (disk.join) (codes "/w") []) (codes "/w/faketime.control") none
          (some (pos 1000)) refl)
        refl)
      refl

get_current_fake_time-Advanced_example :
    get_current_fake_time disk ready (some (pos 1005)) ≡ some (pos 1000 +ℤ pos 5)
get_current_fake_time-Advanced_example =
    get_current_fake_time-Advanced disk disk-KeepsTimes (pos 1000) ready (some (pos 1005)) (pos 5)
      twice_moved
