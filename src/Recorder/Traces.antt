-- ===== src/Recorder/Traces.antt =====
-- `GetExecutedLinesByConfig`: which lines it reports, and in which order.
use vcltest.Base.{
  Bool, true, ◌≡◌, refl, ap, ◌∙◌, ◌↔◌, ◌⊎◌, inl, inr, List, [], ◌∷◌, Option, none, some, In, Any,
  Distinct, arith, length, if◌then◌else◌, ◌==◌, eq_iff, eq_self, Bool-cases, Option-cases, subst,
}
use vcltest.Base.Int.{ℤ, int_eq}
use vcltest.Base.Map.{
  Map, keys, lookup, insert, is_some, get_or, get_or-if, lookup-insert, In-keys-insert, lookup-cons,
  lookup-none, keys-insert-Distinct,
}
use vcltest.Base.Text.{Text}
use vcltest.Recorder.{Message}
use vcltest.Recorder.Parser.{
  VclTrace, parse_vcl_trace, LineSets, record_line, record_message, record_messages, exchange_sort,
  sort_sets, get_executed_lines_by_config,
}
use vcltest.Recorder.Executed.{Ascending, exchange_sort-IsSortOf}

-- The message is a trace of that line of that config, and the config is in the map.
pub record Traces (config_map : Map ℤ Text) (config line : ℤ) (msg : Message) : Type 0 where
  pub trace : VclTrace
  pub parsed : parse_vcl_trace msg ≡ some trace
  pub at_config : trace.config ≡ config
  pub at_line : trace.line ≡ line
  pub known : is_some (lookup config config_map) ≡ true

-- The set of a config.
abbrev set_of : LineSets → ℤ → Map ℤ Bool
set_of sets config = get_or [] (lookup config sets)

abbrev Has : LineSets → ℤ → ℤ → Type 0
Has sets config line = In line (keys (set_of sets config))

-- The keys of the map and of each set are distinct.
record AreSets (sets : LineSets) : Type 0 where
  outer : Distinct (keys sets)
  inner : (config : ℤ) → Distinct (keys (set_of sets config))

module _ (t : VclTrace) (sets : LineSets) where
  set_of-record_line :
      (config : ℤ)
      → set_of (record_line t sets) config ≡ (
          if t.config == config
          then insert t.line true (set_of sets t.config)
          else set_of sets config)
  unfolding record_line
  set_of-record_line config = rw lookup-insert (get_or-if (t.config == config) [] _ _)

  Has-record_line_self :
      (line : ℤ)
      → Has (record_line t sets) t.config line
        ↔ (((t.config ≡ t.config) × (t.line ≡ line)) ⊎ Has sets t.config line)
  Has-record_line_self line =
      rw (set_of-record_line t.config, eq_self t.config)
        (ground (arith, In-keys-insert t.line true (set_of sets t.config) line))

  -- One more line in the set of its config, and every other line as before.
  Has-record_line :
      (config line : ℤ)
      → Has (record_line t sets) config line
        ↔ (((t.config ≡ config) × (t.line ≡ line)) ⊎ Has sets config line)
  Has-record_line config line = elim (Bool-cases (t.config == config)) [
    | inl e ↦
        subst
          (λ c.
            Has (record_line t sets) c line
            ↔ (((t.config ≡ c) × (t.line ≡ line)) ⊎ Has sets c line))
          ((eq_iff t.config config).0 e) (Has-record_line_self line)
    | inr e ↦
        rw (set_of-record_line config, e)
          (
            λ h. inr h,
            λ h. elim h [
              | inl (same, _) ↦ absurd (cc ((eq_iff t.config config).1 same, e))
              | inr k ↦ k
            ],
          )
  ]

  record_line-AreSets : AreSets sets → AreSets (record_line t sets)
  record_line-AreSets s = record {
    outer = unfold record_line in keys-insert-Distinct t.config _ sets s.outer;
    inner = λ config. rw set_of-record_line (elim (Bool-cases (t.config == config)) [
      | inl e ↦ rw e (keys-insert-Distinct t.line true _ (s.inner t.config))
      | inr e ↦ rw e (s.inner config)
    ]);
  }

module _ (config_map : Map ℤ Text) where
  record_message-AreSets :
      (msg : Message) (sets : LineSets)
      → AreSets sets
      → AreSets (record_message config_map msg sets)
  unfolding record_message
  record_message-AreSets msg sets s = elim (Option-cases (parse_vcl_trace msg)) [
    | inl e ↦ rw (e, record_message) s
    | inr (t, e) ↦
        rw (e, record_message)
          (elim (Bool-cases (is_some (lookup t.config config_map))) [
            | inl k ↦ rw k (record_line-AreSets t sets s)
            | inr k ↦ rw k s
          ])
  ]

  Has-record_message :
      (msg : Message) (sets : LineSets) (config line : ℤ)
      → Has (record_message config_map msg sets) config line
        ↔ (Traces config_map config line msg ⊎ Has sets config line)
  unfolding record_message
  Has-record_message msg sets config line = elim (Option-cases (parse_vcl_trace msg)) [
    | inl e ↦
        rw (e, record_message)
          (λ h. inr h, λ h. elim h [ inl t ↦ absurd (cc (t.parsed, e)) | inr k ↦ k ])
    | inr (t, e) ↦
        rw (e, record_message)
          (elim (Bool-cases (is_some (lookup t.config config_map))) [
            | inl k ↦ rw k (
              λ h. elim ((Has-record_line t sets config line).0 h) [
                | inl (c, l) ↦ inl (record {
                  trace = t;
                  parsed = e;
                  at_config = c;
                  at_line = l;
                  known = subst (λ x. is_some (lookup x config_map) ≡ true) c k;
                })
                | inr old ↦ inr old
              ],
              λ h. (Has-record_line t sets config line).1 (elim h [
                | inl r ↦
                    let q : r.trace ≡ t = cc (r.parsed, e) in
                    inl (
                      subst (λ (x : VclTrace). (x.config ≡ config) × (x.line ≡ line)) q
                        (r.at_config, r.at_line))
                | inr old ↦ inr old
              ]),
            )
            | inr k ↦ rw k (
              λ h. inr h,
              λ h. elim h [
                | inl r ↦
                    let q : r.trace ≡ t = cc (r.parsed, e) in
                    absurd
                      (cc (subst (λ (x : VclTrace). x.config ≡ config) q r.at_config, r.known, k))
                | inr old ↦ old
              ],
            )
          ])
  ]

  record_messages-AreSets :
      (ms : List Message) (sets : LineSets)
      → AreSets sets
      → AreSets (record_messages config_map ms sets)
  unfolding record_messages
  record_messages-AreSets [] sets s = s
  record_messages-AreSets (m ∷ ms) sets s =
      record_messages-AreSets ms _ (record_message-AreSets m sets s)

  Has-record_messages :
      (ms : List Message) (sets : LineSets) (config line : ℤ)
      → Has (record_messages config_map ms sets) config line
        ↔ (Any (Traces config_map config line) ms ⊎ Has sets config line)
  unfolding record_messages
  Has-record_messages [] sets config line =
      (λ h. inr h, λ h. elim h [ inl x ↦ absurd x | inr k ↦ k ])
  Has-record_messages (m ∷ ms) sets config line =
      let (to, from) = Has-record_messages ms (record_message config_map m sets) config line in
      let (to_first, from_first) = Has-record_message m sets config line in
      (
        λ h. elim (to h) [
          | inl later ↦ inl (inr later)
          | inr first ↦ elim (to_first first) [ inl t ↦ inl (inl t) | inr old ↦ inr old ]
        ],
        λ h. elim h [
          | inl (inl t) ↦ from (inr (from_first (inl t)))
          | inl (inr later) ↦ from (inl later)
          | inr old ↦ from (inr (from_first (inr old)))
        ],
      )

-- The lines of a set, sorted.
abbrev sorted : Map ℤ Bool → List ℤ
sorted set = exchange_sort (length (keys set)) (keys set)

abbrev sorted_or : Option (List ℤ) → Option (Map ℤ Bool) → Option (List ℤ)
sorted_or before none = before
sorted_or before (some set) = some (sorted set)

lookup-sort_sets :
    (sets : LineSets) (result : Map ℤ (List ℤ)) (config : ℤ)
    → Distinct (keys sets)
    → lookup config (sort_sets sets result) ≡ sorted_or (lookup config result) (lookup config sets)
unfolding sort_sets
lookup-sort_sets [] result config d = unfold lookup in refl
lookup-sort_sets ((c, set) ∷ sets) result config (n, d) = elim (Bool-cases (c == config)) [
  | inl e ↦
      rw
        (
          lookup-sort_sets sets (insert c (sorted set) result) config d,
          lookup-cons,
          e,
          lookup-none config sets (subst (λ x. ¬ In x (keys sets)) ((eq_iff c config).0 e) n),
          lookup-insert,
          e,
        )
        refl
  | inr e ↦
      rw
        (
          lookup-sort_sets sets (insert c (sorted set) result) config d,
          lookup-cons,
          e,
          lookup-insert,
          e,
        )
        refl
]

sorted_or-none : (o : Option (Map ℤ Bool)) → get_or [] (sorted_or none o) ≡ sorted (get_or [] o)
unfolding exchange_sort
sorted_or-none none = refl
sorted_or-none (some set) = refl

no_sets : AreSets []
unfolding lookup
no_sets = record { outer = tt; inner = λ config. tt }

-- For every config the reported lines are exactly those of the trace messages of that config, if the
-- config is in the map, and none otherwise; they stand in ascending order, each once.
pub get_executed_lines_by_config-IsSortOf :
    (messages : List Message) (config_map : Map ℤ Text) (config : ℤ)
    → let reported = get_or [] (lookup config (get_executed_lines_by_config messages config_map)) in
      ((line : ℤ) → In line reported ↔ Any (Traces config_map config line) messages)
      × Ascending reported
unfolding get_executed_lines_by_config
get_executed_lines_by_config-IsSortOf messages config_map config =
    let sets = record_messages config_map messages [] in
    let s = record_messages-AreSets config_map messages [] no_sets in
    let q : get_or [] (lookup config (sort_sets sets [])) ≡ sorted (set_of sets config) =
      ap (get_or []) (lookup-sort_sets sets [] config s.outer)
      ∙ unfold lookup in sorted_or-none (lookup config sets) in
    let r = exchange_sort-IsSortOf _ (keys (set_of sets config)) refl (s.inner config) in
    rw q (
      λ line.
          let (to, from) = Has-record_messages config_map messages [] config line in
          (
            λ h. elim (to ((r.same line).0 h)) [
              | inl a ↦ a
              | inr old ↦ absurd (unfold lookup in old)
            ],
            λ h. (r.same line).1 (from (inl h)),
          ),
      r.ascending,
    )
