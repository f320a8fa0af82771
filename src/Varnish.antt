-- ===== src/Varnish.antt =====
-- pkg/varnish: the arguments of varnishd (config.go), its working directory, and the control of its
-- clock through the modification time of a file (process.go). `join` is that of `path/filepath`.
pub mod Clock
mod Samples
use vcltest.Base.{
  Bool, true, false, not, Option, none, some, List, [], ◌∷◌, ◌++◌, ◌||◌, if◌then◌else◌, any,
}
use vcltest.Base.Int.{ℤ, pos, int_beq, ◌+ℤ◌}
use vcltest.Base.Text.{Text, codes, is_empty}
use vcltest.Varnishadm.Commands.{itoa}

pub record TimeConfig : Type 0 where
  pub enabled : Bool
  pub lib_path : Text

-- `HTTPConfig` and `HTTPSConfig`
pub record HttpConfig : Type 0 where
  pub address : Text
  pub port : ℤ

pub record LicenseConfig : Type 0 where
  pub text : Text
  pub file : Text

pub record VarnishConfig : Type 0 where
  pub admin_port : ℤ
  pub http : List HttpConfig
  pub https : List HttpConfig
  pub extra_args : List Text
  pub time : TimeConfig

pub record Config : Type 0 where
  pub work_dir : Text
  pub varnish_dir : Text
  pub storage_args : List Text
  pub vcl_path : Text
  pub license : LicenseConfig
  pub varnish : VarnishConfig

-- An empty address leaves the text in front of the colon empty.
unfoldable pub listen_spec : HttpConfig → Text → Text
unfolding itoa
listen_spec h protocol = h.address ++ b':' ∷ itoa h.port ++ b',' ∷ protocol

-- Port 0 lets the kernel choose, whatever the address.
unfoldable pub http_args : List HttpConfig → List Text
unfolding listen_spec
http_args [] = []
http_args (h ∷ hs) =
    codes "-a"
    ∷ (if int_beq h.port (pos 0) then codes ":0,http" else listen_spec h (codes "http"))
    ∷ http_args hs

unfoldable pub https_args : List HttpConfig → List Text
unfolding listen_spec
https_args [] = []
https_args (h ∷ hs) = codes "-a" ∷ listen_spec h (codes "https") ∷ https_args hs

module _ (join : Text → Text → Text) where
  abbrev pub license_args : Config → List Text
  license_args cfg =
      if not (is_empty cfg.license.text) || not (is_empty cfg.license.file)
      then codes "-L" ∷ join cfg.work_dir (codes "varnish-enterprise.lic") ∷ []
      else []

  -- `BuildArgs`
  unfoldable pub build_args : Config → List Text
  unfolding http_args https_args itoa
  build_args cfg =
      license_args cfg
      ++ codes "-S"
        ∷ join cfg.work_dir (codes "secret")
        ∷ codes "-M"
        ∷ (codes "localhost:" ++ itoa cfg.varnish.admin_port)
        ∷ codes "-n"
        ∷ cfg.varnish_dir
        ∷ codes "-F"
        ∷ codes "-f"
        ∷ cfg.vcl_path
        ∷ (http_args cfg.varnish.http
            ++ https_args cfg.varnish.https
            ++ cfg.storage_args
            ++ cfg.varnish.extra_args
            ++ codes "-p"
              ∷ (codes "vcl_path=" ++ join cfg.work_dir (codes "vcl"))
              ∷ codes "-p"
              ∷ codes "feature=+trace"
              ∷ [])

-- A time is a number of nanoseconds.
pub record Manager : Type 0 where
  pub work_dir : Text
  pub varnish_dir : Text
  pub secret : Text
  pub time_control_file : Text
  pub test_start_time : ℤ

-- `New`
unfoldable pub new : (Text → Text → Text) → Text → Text → Manager
new join work_dir custom = record {
  work_dir = work_dir;
  varnish_dir = if is_empty custom then join work_dir (codes "varnish") else custom;
  secret = [];
  time_control_file = [];
  test_start_time = pos 0;
}

pub data ManagerError : Type 0 where
  not_made not_permitted not_written : Text → ManagerError
  not_created not_set not_initialized no_library unsupported : ManagerError

pub data Result (A : Type 0) : Type 0 where
  ok : A → Result A
  err : ManagerError → Result A

-- The steps of the file system, each with whether it succeeds. A time is that of a file's last change.
pub record Disk (W : Type 0) : Type 0 where
  pub make_dirs : Text → W → Bool × W
  pub permit : Text → W → Bool × W
  pub write_file : Text → Text → W → Bool × W
  pub create : Text → W → Bool × W
  pub set_time : Text → ℤ → W → Bool × W
  pub get_time : Text → W → Option ℤ
  pub exists : Text → W → Bool
  pub join : Text → Text → Text

module _ {W : Type 0} (disk : Disk W) where
  -- The steps of `PrepareWorkspace`, each behind a success of the one before.
  abbrev pub attempt :
      (W → Bool × W) → ManagerError → (W → Result (Unit {0}) × W) → W → Result (Unit {0}) × W
  attempt step e rest w = let (done, v) = step w in if done then rest v else (err e, v)

  -- `writeLicenseFile`
  abbrev pub write_license_file : Manager → Text → W → Result (Unit {0}) × W
  write_license_file m [] w = (ok tt, w)
  write_license_file m (c ∷ text) w =
      let path = disk.join m.work_dir (codes "varnish-enterprise.lic") in
      attempt (disk.write_file path (c ∷ text)) (not_written path) (λ v. (ok tt, v)) w

  abbrev make_directories : Manager → W → Result (Unit {0}) × W
  make_directories m =
      let vcl_dir = disk.join m.work_dir (codes "vcl") in
      attempt (disk.make_dirs m.work_dir) (not_made m.work_dir) (
        attempt (disk.make_dirs vcl_dir) (not_made vcl_dir) (
          attempt (disk.make_dirs m.varnish_dir) (not_made m.varnish_dir)
            (attempt (disk.permit m.varnish_dir) (not_permitted m.varnish_dir) (λ w. (ok tt, w)))))

  -- `writeSecretFile`, then the license.
  abbrev write_secrets : Manager → Text → Text → W → Result (Unit {0}) × W
  write_secrets m secret license =
      let path = disk.join m.work_dir (codes "secret") in
      attempt (disk.write_file path secret) (not_written path) (write_license_file m license)

  -- With the directories in place, the manager keeps the secret, whether it can be written or not.
  abbrev keep_secret :
      Manager → Text → Text → Result (Unit {0}) × W → Result (Unit {0}) × Manager × W
  keep_secret m secret license (err e, w) = (err e, m, w)
  keep_secret m secret license (ok u, w) =
      let (outcome, v) = write_secrets m secret license w in
      (outcome, record m { secret = secret }, v)

  -- `PrepareWorkspace`
  unfoldable pub prepare_workspace : Manager → Text → Text → W → Result (Unit {0}) × Manager × W
  prepare_workspace m secret license w = keep_secret m secret license (make_directories m w)

  -- `initTimeControl`, at the time `now`
  unfoldable pub init_time_control : ℤ → Manager → W → Result Text × Manager × W
  init_time_control now m w =
      let file = disk.join m.work_dir (codes "faketime.control") in
      let started = record m { test_start_time = now } in
      let (created, v) = disk.create file w in
      let (is_set, u) = disk.set_time file now v in
      if created
      then if is_set
        then (ok file, record started { time_control_file = file }, u)
        else (err not_set, started, u)
      else (err not_created, started, v)

  -- `AdvanceTimeBy`
  unfoldable pub advance_time_by : ℤ → Manager → W → Result (Unit {0}) × W
  unfolding ◌+ℤ◌
  advance_time_by offset m w =
      if is_empty m.time_control_file
      then (err not_initialized, w)
      else attempt (disk.set_time m.time_control_file (m.test_start_time +ℤ offset)) not_set
          (λ v. (ok tt, v)) w

  -- `GetCurrentFakeTime`, where `none` stands for the zero time.
  unfoldable pub get_current_fake_time : Manager → W → Option ℤ
  get_current_fake_time m w =
      if is_empty m.time_control_file then none else disk.get_time m.time_control_file w

  abbrev pub first_existing : List Text → W → Result Text
  first_existing [] w = err no_library
  first_existing (path ∷ paths) w =
      let rest = first_existing paths w in if disk.exists path w then ok path else rest

  -- `detectLibfaketimePath` on Linux.
  unfoldable pub detect_libfaketime_path : Text → W → Result Text
  detect_libfaketime_path [] w =
      first_existing
        (codes "/usr/lib/x86_64-linux-gnu/faketime/libfaketime.so.1"
          ∷ codes "/usr/lib/faketime/libfaketime.so.1"
          ∷ [])
        w
  detect_libfaketime_path (c ∷ custom) w =
      if disk.exists (c ∷ custom) w then ok (c ∷ custom) else err no_library

  -- The end of `setupFaketime`: the variables that varnishd gets.
  abbrev faketime_env : Text → Result Text × Manager × W → Result (List Text) × Manager × W
  faketime_env lib (err e, m, w) = (err e, m, w)
  faketime_env lib (ok file, m, w) = (
    ok (
        codes "FAKETIME=%"
        ∷ (codes "FAKETIME_FOLLOW_FILE=" ++ file)
        ∷ codes "FAKETIME_DONT_RESET=1"
        ∷ codes "FAKETIME_NO_CACHE=1"
        ∷ (codes "LD_PRELOAD=" ++ lib)
        ∷ []),
    m,
    w,
  )

  -- `setupFaketime` on Linux.
  unfoldable pub setup_faketime : TimeConfig → ℤ → Manager → W → Result (List Text) × Manager × W
  unfolding detect_libfaketime_path init_time_control
  setup_faketime cfg now m w = elim (detect_libfaketime_path cfg.lib_path w) [
    | err e ↦ (err e, m, w)
    | ok lib ↦ faketime_env lib (init_time_control now m w)
  ]
