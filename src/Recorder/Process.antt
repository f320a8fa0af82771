-- ===== src/Recorder/Process.antt =====
-- pkg/recorder/recorder.go: the varnishlog process that a recorder runs. What the operating system
-- answers is an input of each operation.
use vcltest.Base.{
  Bool, true, false, ◌≡◌, refl, [], ℕ, Option, none, some, if◌then◌else◌, ◌≢◌, arith, ◌↔◌, ◌||◌,
}
use vcltest.Base.Text.{Text, is_empty}

pub record Recorder : Type 0 where
  pub work_dir : Text
  pub output_file : Text
  pub running : Bool
  pub has_cmd : Bool
  pub log : Option Text

pub data RecorderError : Type 0 where
  empty_work_dir nil_logger no_varnishlog already_running create_failed start_failed not_running
        signal_failed kill_failed no_process flush_failed stat_failed :
      RecorderError

pub data Result (A : Type 0) : Type 0 where
  ok : A → Result A
  err : RecorderError → Result A

-- `New`; the output file is `filepath.Join(workDir, "varnish.log")`, a parameter.
unfoldable pub new : Text → Bool → Bool → Text → Result Recorder
new work_dir has_logger in_path output_file =
    if is_empty work_dir
    then err empty_work_dir
    else if has_logger
    then if in_path
      then ok (record {
        work_dir = work_dir;
        output_file = output_file;
        running = false;
        has_cmd = false;
        log = none;
      })
      else err no_varnishlog
    else err nil_logger

-- What the system does in `Start`: whether the log file can be removed and created, and whether
-- varnishlog starts.
pub record Starts : Type 0 where
  pub removed : Bool
  pub created : Bool
  pub started : Bool

-- The log file: removed, then created anew and empty (`os.Create` truncates).
abbrev log_created : Starts → Option Text → Option Text
log_created s old = if s.created then some [] else if s.removed then none else old

-- `Start`
unfoldable pub start : Starts → Recorder → Result Unit × Recorder
start s r =
    if r.running
    then (err already_running, r)
    else if s.created
    then if s.started
      then (ok tt, record r { running = true; has_cmd = true; log = log_created s r.log })
      else (err start_failed, record r { has_cmd = true; log = log_created s r.log })
    else (err create_failed, record r { log = log_created s r.log })

-- What the system does in `Stop`: the interrupt, whether varnishlog ends in time, the kill.
pub record Stops : Type 0 where
  pub signalled : Bool
  pub in_time : Bool
  pub killed : Bool

-- `Stop`
unfoldable pub stop : Stops → Recorder → Result Unit × Recorder
stop s r =
    if r.running
    then if s.signalled
      then if s.in_time
        then (ok tt, record r { running = false })
        else if s.killed
        then (ok tt, record r { running = false })
        else (err kill_failed, r)
      else (err signal_failed, r)
    else (err not_running, r)

-- `Flush`
unfoldable pub flush : Bool → Recorder → Result Unit
flush signalled r =
    if r.running
    then if r.has_cmd then if signalled then ok tt else err flush_failed else err no_process
    else err not_running

-- `MarkPosition`; the size of the log file as `os.Stat` gives it, or its failure.
abbrev pub mark_position : Option ℕ → Result ℕ
mark_position none = err stat_failed
mark_position (some size) = ok size

abbrev pub is_running : Recorder → Bool
is_running r = r.running

-- A call of the recorder with the system's answers.
pub data Call : Type 0 where
  start_call : Starts → Call
  stop_call : Stops → Call

unfoldable pub run_call : Call → Recorder → Result Unit × Recorder
unfolding start stop
run_call (start_call s) r = start s r
run_call (stop_call s) r = stop s r

-- What is reached from a new recorder by calls.
pub data Reached : Recorder → Type 0 where
  made :
      (work_dir output_file : Text) (logger path : Bool) {r : Recorder}
      → new work_dir logger path output_file ≡ ok r
      → Reached r
  called : {r : Recorder} (c : Call) → Reached r → Reached (run_call c r).1

-- A running recorder has a process and a log.
abbrev pub IsReady : Recorder → Type 0
IsReady r = (r.running ≡ true) → (r.has_cmd ≡ true) × (r.log ≢ none)

new-IsReady :
    (work_dir : Text) (logger path : Bool) (output_file : Text) {r : Recorder}
    → new work_dir logger path output_file ≡ ok r
    → IsReady r
unfolding new
new-IsReady work_dir logger path output_file {r} e = ground arith

run_call-IsReady : (c : Call) (r : Recorder) → IsReady r → IsReady (run_call c r).1
unfolding run_call start stop
run_call-IsReady (start_call s) r h = ground arith
run_call-IsReady (stop_call s) r h = ground arith

Reached-IsReady : {r : Recorder} → Reached r → IsReady r
Reached-IsReady (made work_dir output_file logger path e) =
    new-IsReady work_dir logger path output_file e
Reached-IsReady (called {r} c reached) = run_call-IsReady c r (Reached-IsReady reached)

-- Whatever the calls of Start and Stop and the answers of the system, a running recorder has a process
-- and its log file was made when it was started: so Flush fails only if the signal does.
pub Reached-flush :
    {r : Recorder}
    → Reached r
    → r.running ≡ true
    → ((signalled : Bool) → flush signalled r ≡ (if signalled then ok tt else err flush_failed))
      × (r.log ≢ none)
unfolding flush
Reached-flush {r} reached running =
    let (cmd, text) = Reached-IsReady reached running in (λ signalled. rw (running, cmd) refl, text)

-- When a call succeeds, and the state it then leads to.
abbrev pub Succeeds : Call → Recorder → Type 0
Succeeds (start_call s) r = (r.running ≡ false) × (s.created ≡ true) × (s.started ≡ true)
Succeeds (stop_call s) r =
    (r.running ≡ true) × (s.signalled ≡ true) × ((s.in_time || s.killed) ≡ true)

abbrev pub state_after : Call → Bool
state_after (start_call s) = true
state_after (stop_call s) = false

-- Start succeeds exactly if nothing runs and the file and the process can be made, Stop exactly if
-- varnishlog runs, takes the interrupt and then ends or is killed. A call that succeeds switches the
-- flag, and one that fails leaves it as it was.
pub run_call-running :
    (c : Call) (r : Recorder)
    → (((run_call c r).0 ≡ ok tt) ↔ Succeeds c r)
      × (((run_call c r).0 ≡ ok tt) → (run_call c r).1.running ≡ state_after c)
      × (((run_call c r).0 ≢ ok tt) → (run_call c r).1.running ≡ r.running)
unfolding run_call start stop
run_call-running (start_call s) r = ground arith
run_call-running (stop_call s) r = ground arith
