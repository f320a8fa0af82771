-- ===== src/Recorder/Parser.antt =====
-- pkg/recorder/parser.go.
use vcltest.Base.{
  Bool, true, false, List, [], ◌∷◌, ℕ, zero, suc, ◌+◌, Option, none, some, ltb, if◌then◌else◌,
  length,
}
use vcltest.Base.Int.{ℤ, int_eq, pos, ltb_ℤ}
use vcltest.Base.Map.{Map, keys, lookup, insert, is_some, get_or}
use vcltest.Base.Text.{Text, text_eq, codes, split, atoi}
use vcltest.Recorder.{Message, MessageType, vcl_trace, backend_open, field}

pub record VclTrace : Type 0 where
  pub vcl_name : Text
  pub trace_id : Text
  pub source_location : Text
  pub config : ℤ
  pub line : ℤ
  pub column : ℤ

pub record BackendCall : Type 0 where
  pub id : Text
  pub backend_name : Text
  pub host : Text
  pub port : Text

abbrev pub is_trace : MessageType → Bool
is_trace vcl_trace = true
is_trace _ = false

abbrev pub is_backend_open : MessageType → Bool
is_backend_open backend_open = true
is_backend_open _ = false

infixl 5 ◌>>=◌
abbrev ◌>>=◌ : {A B : Type 0} → Option A → (A → Option B) → Option B
none >>= f = none
some a >>= f = f a

-- The three numbers of a source location "config.line.column".
unfoldable pub parse_location : List Text → Option (ℤ × ℤ × ℤ)
unfolding atoi
parse_location (c ∷ l ∷ k ∷ []) = do
  config ← atoi c
  line ← atoi l
  column ← atoi k
  some (config, line, column)
parse_location _ = none

abbrev trace_of : List Text → Option VclTrace
trace_of fs = do
  (config, line, column) ← parse_location (split (field fs 4) b'.')
  some (record {
    vcl_name = field fs 2;
    trace_id = field fs 3;
    source_location = field fs 4;
    config = config;
    line = line;
    column = column;
  })

-- `ParseVCLTrace`
unfoldable pub parse_vcl_trace : Message → Option VclTrace
parse_vcl_trace msg =
    if is_trace msg.type
    then if ltb (length msg.fields) 5 then none else trace_of msg.fields
    else none

-- `ParseBackendCall`
unfoldable pub parse_backend_call : Message → Option BackendCall
parse_backend_call msg =
    if is_backend_open msg.type
    then if ltb (length msg.fields) 6
      then none
      else some (record {
        id = field msg.fields 2;
        backend_name = field msg.fields 3;
        host = field msg.fields 4;
        port = field msg.fields 5;
      })
    else none

abbrev pub LineSets : Type 0
LineSets = Map ℤ (Map ℤ Bool)

-- `execByConfig[config][line] = true`, where the inner map is made at need.
unfoldable pub record_line : VclTrace → LineSets → LineSets
unfolding lookup insert
record_line t sets = insert t.config (insert t.line true (get_or [] (lookup t.config sets))) sets

unfoldable pub record_message : Map ℤ Text → Message → LineSets → LineSets
unfolding parse_vcl_trace record_line
record_message config_map msg sets = elim (parse_vcl_trace msg) [
  | none ↦ sets
  | some t ↦ if is_some (lookup t.config config_map) then record_line t sets else sets
]

-- The first loop of `GetExecutedLinesByConfig`.
unfoldable pub record_messages : Map ℤ Text → List Message → LineSets → LineSets
unfolding record_message
record_messages config_map [] sets = sets
record_messages config_map (m ∷ ms) sets =
    record_messages config_map ms (record_message config_map m sets)

-- The inner sorting loop over `j`: `cur` is `lines[i]`, and the result is its last value with the
-- lines behind it.
unfoldable pub exchange : ℤ → List ℤ → ℤ × List ℤ
exchange cur [] = (cur, [])
exchange cur (y ∷ ys) =
    let swap = ltb_ℤ y cur in
    let (least, rest) = exchange (if swap then y else cur) ys in
    (least, (if swap then cur else y) ∷ rest)

-- The outer sorting loop over `i`, with the rounds that are left.
unfoldable pub exchange_sort : ℕ → List ℤ → List ℤ
unfolding exchange
exchange_sort zero xs = xs
exchange_sort (suc n) [] = []
exchange_sort (suc n) (x ∷ xs) = let (least, rest) = exchange x xs in least ∷ exchange_sort n rest

-- The second loop: each set becomes a sorted list.
unfoldable pub sort_sets : LineSets → Map ℤ (List ℤ) → Map ℤ (List ℤ)
unfolding exchange_sort insert
sort_sets [] result = result
sort_sets ((config, set) ∷ sets) result =
    sort_sets sets (insert config (exchange_sort (length (keys set)) (keys set)) result)

-- `GetExecutedLinesByConfig`
unfoldable pub get_executed_lines_by_config : List Message → Map ℤ Text → Map ℤ (List ℤ)
unfolding record_messages sort_sets
get_executed_lines_by_config messages config_map =
    sort_sets (record_messages config_map messages []) []

-- `GetExecutedLines`
unfoldable pub get_executed_lines : List Message → List ℤ
unfolding get_executed_lines_by_config lookup
get_executed_lines messages =
    get_or [] (lookup (pos 0) (get_executed_lines_by_config messages ((pos 0, codes "main") ∷ [])))

-- `CountBackendCalls`
unfoldable pub count_backend_calls : List Message → ℕ
count_backend_calls [] = 0
count_backend_calls (m ∷ ms) = (if is_backend_open m.type then 1 else 0) + count_backend_calls ms

unfoldable pub used_set : List Message → Map Text Bool → Map Text Bool
unfolding parse_backend_call insert
used_set [] set = set
used_set (m ∷ ms) set = elim (parse_backend_call m) [
  | none ↦ used_set ms set
  | some b ↦ used_set ms (insert b.backend_name true set)
]

-- `GetBackendsUsed`
unfoldable pub get_backends_used : List Message → List Text
unfolding used_set
get_backends_used messages = keys (used_set messages [])

pub record VclTraceSummary : Type 0 where
  pub executed_lines : List ℤ
  pub backend_calls : ℕ
  pub backends_used : List Text

-- `GetTraceSummary`
unfoldable pub get_trace_summary : List Message → VclTraceSummary
unfolding get_executed_lines count_backend_calls get_backends_used
get_trace_summary messages = record {
  executed_lines = get_executed_lines messages;
  backend_calls = count_backend_calls messages;
  backends_used = get_backends_used messages;
}
