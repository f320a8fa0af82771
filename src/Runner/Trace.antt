-- ===== src/Runner/Trace.antt =====
-- `extractVCLFiles` and the trace of a test that failed.
use vcltest.Base.{Bool, Option, none, some, List, [], ◌∷◌, ℕ, if◌then◌else◌}
use vcltest.Base.Int.{ℤ, int_eq}
use vcltest.Base.Map.{Map, lookup, get_or}
use vcltest.Coverage.{FileBlocks}
use vcltest.Coverage.Analyzer.{analyze_vcl}
use vcltest.Coverage.Matcher.{match_traces_to_blocks}
use vcltest.Recorder.{get_vcl_messages_since}
use vcltest.Recorder.Parser.{get_executed_lines_by_config, get_trace_summary}
use vcltest.Runner.{Outside, VclConfigEntry, VclShowResult, VclFileInfo, VclTraceInfo, Runner}

module _ {W : Type 0} (out : Outside W) where
  abbrev with_id : ℤ → Option FileBlocks → Option FileBlocks
  with_id id none = none
  with_id id (some fb) = some (record fb { config_id = id })

  -- The file of one entry: its blocks are missing where the VCL does not parse.
  unfoldable pub file_of : Map ℤ (List ℤ) → VclConfigEntry → VclFileInfo
  unfolding analyze_vcl match_traces_to_blocks lookup
  file_of exec entry =
      let executed = get_or [] (lookup entry.config_id exec) in
      record {
        config_id = entry.config_id;
        filename = entry.filename;
        source = entry.source;
        executed_lines = executed;
        blocks = with_id entry.config_id (
            match_traces_to_blocks (analyze_vcl out.parse_vcl entry.source entry.filename)
              executed);
      }

  unfoldable pub files_of : Map ℤ (List ℤ) → List VclConfigEntry → List VclFileInfo
  unfolding file_of
  files_of exec [] = []
  files_of exec (entry ∷ entries) = file_of exec entry ∷ files_of exec entries

  -- `extractVCLFiles`
  unfoldable pub extract_vcl_files : VclShowResult → Map ℤ (List ℤ) → List VclFileInfo
  unfolding files_of
  extract_vcl_files show exec = files_of exec show.entries

  -- What is attached to a result: nothing if it passed, if there is no recorder, if the structure of
  -- the VCL is not known or if the log cannot be read.
  unfoldable pub attach_trace : Runner → Bool → ℕ → W → Option VclTraceInfo
  unfolding extract_vcl_files get_vcl_messages_since get_executed_lines_by_config get_trace_summary
  attach_trace r passed offset w =
      if passed
      then none
      else if r.has_recorder
      then elim r.vcl_show_result [
        | none ↦ none
        | some show ↦ elim (get_vcl_messages_since (out.log w) offset) [
          | none ↦ none
          | some messages ↦ some (record {
            files = extract_vcl_files show (get_executed_lines_by_config messages show.config_map);
            backend_calls = (get_trace_summary messages).backend_calls;
          })
        ]
      ]
      else none
