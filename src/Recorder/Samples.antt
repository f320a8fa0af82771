-- ===== src/Recorder/Samples.antt =====
-- Runs of pkg/recorder on lines as varnishlog writes them.
use vcltest.Base.{
  Bool, true, false, ◌≡◌, ◌≢◌, refl, ◌↔◌, Option, none, some, List, [], ◌∷◌, ◌++◌, Any, In,
  Distinct, ℕ, length, ◌+◌, if◌then◌else◌, arith,
}
use vcltest.Base.Int.{ℤ, int_eq, pos}
use vcltest.Base.Map.{Map, lookup, get_or}
use vcltest.Base.Text.{Text, codes, IsWord, Lacks, atoi}
use vcltest.Recorder.{Message, parse_line, parse_lines, get_vcl_messages_since, vcl_trace}
use vcltest.Recorder.Parser.{
  parse_vcl_trace, get_executed_lines_by_config, get_executed_lines, get_backends_used,
  count_backend_calls, exchange_sort,
}
use vcltest.Recorder.Lines.{
  location, trace_line, parse_vcl_trace-trace_line, get_vcl_messages_since-mark,
}
use vcltest.Recorder.Executed.{Ascending}
use vcltest.Recorder.Traces.{Traces, get_executed_lines_by_config-IsSortOf}
use vcltest.Recorder.Backends.{Opens, get_backends_used_iff}
use vcltest.Recorder.Process.{
  Recorder, Starts, start_call, Reached, made, called, new, run_call, flush, ok, err, flush_failed,
  Reached-flush,
}

abbrev log_lines : List Text
log_lines =
    codes "-   VCL_trace      boot 1 0.12.3"
    ∷ codes "-   Timestamp      Start: 1"
    ∷ codes "-   BackendOpen    22 api 127.0.0.1 8080 127.0.0.1 5000"
    ∷ codes "-   VCL_trace      boot 2 0.5.3"
    ∷ codes "-   VCL_trace      boot 3 1.7.3"
    ∷ codes "-   VCL_trace      boot 4 0.12.9"
    ∷ []

unfoldable messages : List Message
unfolding parse_lines
messages = parse_lines log_lines

abbrev config_map : Map ℤ Text
config_map = (pos 0, codes "main.vcl") ∷ []

get_executed_lines_sample : get_executed_lines messages ≡ pos 5 ∷ pos 12 ∷ []
unfolding messages get_executed_lines vcltest.Base.Text.fields vcltest.Base.Text.text_beq
    vcltest.Recorder.Parser.parse_location vcltest.Base.Text.split
get_executed_lines_sample = refl

get_backends_used_sample : get_backends_used messages ≡ codes "api" ∷ []
unfolding messages get_backends_used vcltest.Base.Text.fields vcltest.Base.Text.text_beq
get_backends_used_sample = refl

count_backend_calls_sample : count_backend_calls messages ≡ 1
unfolding messages count_backend_calls vcltest.Base.Text.fields vcltest.Base.Text.text_beq
count_backend_calls_sample = refl

get_executed_lines_by_config-IsSortOf_example :
    let reported = get_or [] (lookup (pos 0) (get_executed_lines_by_config messages config_map)) in
    ((line : ℤ) → In line reported ↔ Any (Traces config_map (pos 0) line) messages)
    × Ascending reported
get_executed_lines_by_config-IsSortOf_example =
    get_executed_lines_by_config-IsSortOf messages config_map (pos 0)

get_backends_used_iff_example :
    Distinct (get_backends_used messages)
    × ((name : Text) → In name (get_backends_used messages) ↔ Any (Opens name) messages)
get_backends_used_iff_example = get_backends_used_iff messages

get_vcl_messages_since-mark_example :
    (old new : List Message) × (get_vcl_messages_since (some (codes "- VCL_call RECV")) 0
      ≡ some old)
    × (get_vcl_messages_since
          (some (codes "- VCL_call RECV\n- VCL_return hash"))
          (length (codes "- VCL_call RECV") + 1)
        ≡ some new)
    × (get_vcl_messages_since (some (codes "- VCL_call RECV\n- VCL_return hash")) 0
        ≡ some (old ++ new))
get_vcl_messages_since-mark_example =
    get_vcl_messages_since-mark (codes "- VCL_call RECV") (codes "- VCL_return hash")

abbrev running_recorder : Recorder
running_recorder = record {
  work_dir = codes "/w";
  output_file = codes "/w/varnish.log";
  running = true;
  has_cmd = true;
  log = some [];
}

abbrev new_recorder : Recorder
new_recorder = record {
  work_dir = codes "/w";
  output_file = codes "/w/varnish.log";
  running = false;
  has_cmd = false;
  log = none;
}

abbrev all_well : Starts
all_well = record { removed = true; created = true; started = true }

new-Reached : Reached new_recorder
unfolding new
new-Reached = made (codes "/w") (codes "/w/varnish.log") true true refl

running-Reached : Reached running_recorder
unfolding run_call
running-Reached = called (start_call all_well) new-Reached

Reached-flush_example :
    ((signalled : Bool)
      → flush signalled running_recorder ≡ (if signalled then ok tt else err flush_failed))
    × (running_recorder.log ≢ none)
Reached-flush_example = Reached-flush running-Reached refl

dash-IsWord : IsWord (codes "-")
dash-IsWord = ((λ e. cc), (refl, tt))

boot-IsWord : IsWord (codes "boot")
boot-IsWord = ((λ e. cc), (refl, (refl, (refl, (refl, tt)))))

id-IsWord : IsWord (codes "7")
id-IsWord = ((λ e. cc), (refl, tt))

location-IsWord : IsWord (location (codes "0") (codes "12") (codes "3"))
location-IsWord = ((λ e. cc), (refl, (refl, (refl, (refl, (refl, (refl, tt)))))))

numbers :
    (atoi (codes "0") ≡ some (pos 0))
    × (atoi (codes "12") ≡ some (pos 12))
    × (atoi (codes "3") ≡ some (pos 3))
unfolding atoi
numbers = (refl, refl, refl)

parse_vcl_trace-trace_line_example :
    parse_vcl_trace (
      parse_line
        (trace_line (codes "-") (codes "boot") (codes "7") (codes "0") (codes "12") (codes "3")))
    ≡ some (record {
      vcl_name = codes "boot";
      trace_id = codes "7";
      source_location = codes "0.12.3";
      config = pos 0;
      line = pos 12;
      column = pos 3;
    })
parse_vcl_trace-trace_line_example =
    parse_vcl_trace-trace_line (codes "-") (codes "boot") (codes "7") (codes "0") (codes "12")
      (codes "3") (pos 0) (pos 12) (pos 3) dash-IsWord boot-IsWord id-IsWord location-IsWord
      ((refl, tt), (refl, (refl, tt)), (refl, tt)) numbers
