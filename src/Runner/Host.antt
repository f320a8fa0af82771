-- ===== src/Runner/Host.antt =====
-- What the runner asks of Varnish's administration and of the file system, and the actions that are
-- made of it: a state, and an error that ends the test.
use vcltest.Base.{Bool, true, false, Option, none, some}
use vcltest.Base.Text.{Text}
use vcltest.Runner.{VclShowResult}
use vcltest.Runner.Shared.{Outcome, done, error, RunError, State}
use vcltest.Varnishadm.{VarnishResponse}
use vcltest.Vclmod.Includes.{Files}

-- A command gives a response or an error of the connection. A step of the file system tells whether it
-- succeeded. `join` and `dir` are those of `path/filepath`.
pub record Host (W : Type 0) : Type 0 where
  pub vcl_load : Text → Text → W → Option VarnishResponse × W
  pub vcl_use : Text → W → Option VarnishResponse × W
  pub vcl_discard : Text → W → Option VarnishResponse × W
  pub vcl_show : Text → W → Option VclShowResult × W
  pub make_temp_dir : W → Option Text × W
  pub make_dirs : Text → W → Bool × W
  pub write_file : Text → Text → W → Bool × W
  pub remove_all : Text → W → W
  pub join : Text → Text → Text
  pub dir : Text → Text
  -- The VCL files as they are on the disk.
  pub files : W → Files
  -- The address that a backend gets, by its name.
  pub listen : Text → W → Option Text × W

abbrev pub Action : Type 0 → Type 0 → Type 0
Action W A = State W → Outcome A × State W

abbrev pub and_then :
    {W A B : Type 0} → Outcome A × State W → (A → Action W B) → Outcome B × State W
and_then (done a, s) f = f a s
and_then (error e, s) f = (error e, s)

infixl 5 ◌>>=◌ ◌>>◌
unfoldable pub ◌>>=◌ : {W A B : Type 0} → Action W A → (A → Action W B) → Action W B
◌>>=◌ m f s = and_then (m s) f

abbrev pub ◌>>◌ : {W B : Type 0} → Action W (Unit {0}) → Action W B → Action W B
m >> k = m >>= λ _. k

abbrev pub return : {W A : Type 0} → A → Action W A
return a s = (done a, s)

abbrev pub throw : {W A : Type 0} → RunError → Action W A
throw e s = (error e, s)

-- A step outside of the program, which does not touch the mock backends.
abbrev pub outside : {W A : Type 0} → (W → A × W) → Action W A
outside f (mocks, w) = let (a, v) = f w in (done a, (mocks, v))

-- A step that ends the test where it fails.
abbrev pub or_throw : {W A : Type 0} → RunError → Option A → Action W A
or_throw e none s = (error e, s)
or_throw e (some a) s = (done a, s)

abbrev pub ensure : {W : Type 0} → RunError → Bool → Action W (Unit {0})
ensure e true s = (done tt, s)
ensure e false s = (error e, s)

-- `defer`: the clean-up runs behind a result and behind an error.
abbrev pub finally : {W A : Type 0} → Action W A → (State W → State W) → Action W A
finally m cleanup s = let (o, t) = m s in (o, cleanup t)
