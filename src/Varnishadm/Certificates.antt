-- ===== src/Varnishadm/Certificates.antt =====
-- What the mock prints for `tls.cert.list` is read back as the certificates.
use vcltest.Base.{
  Bool, true, false, Option, none, some, List, [], ◌∷◌, ◌++◌, ℕ, ◌≡◌, refl, sym, ap, ◌∙◌, subst,
  All, if◌then◌else◌, map, arith,
}
use vcltest.Base.Map.{Map, lookup}
use vcltest.Base.Text.{
  Text, text_eq, codes, is_empty, fields, fields_word, IsWord, Lacks, words-Lacks, no_space-Lacks,
  join, join-spaced, lines, split-join, trim_space,
}
use vcltest.Varnishadm.{
  error_response, MockVarnishadm, TlsCertEntry, VarnishResponse, spaces, pad, cert_line,
  list_heading, exec, handle_tls_cert_list, clis_ok, respond,
}
use vcltest.Varnishadm.Lists.{
  is_on, cert_of, parse_tls_cert_line, parse_entries, without_heading, parse_tls_cert_list,
  tls_cert_list_structured,
}
use vcltest.Varnishadm.Commands.{answered, read_answer}
use vcltest.Varnishadm.Certs.{
  fields-pad_word, fields-pad_words, pad-Lacks, EndsWord, EndsWord-append, trim_space-EndsWord,
  pad-append,
}

-- How a time is printed and read: five words, and the same time again.
pub record IsDate (format_time : ℕ → Text) (parse_time : Text → Option ℕ) (t : ℕ) : Type 0 where
  pub month : Text
  pub more : Text × Text × Text × Text
  pub month_word : IsWord month
  pub more_words : IsWord more.0 × IsWord more.1 × IsWord more.2 × IsWord more.3
  pub printed : format_time t ≡ join (month ∷ more.0 ∷ more.1 ∷ more.2 ∷ more.3 ∷ []) (codes " ")
  pub read : parse_time (format_time t) ≡ some t

-- The frontend may be missing; the mock prints `default` then.
abbrev pub shown_frontend : TlsCertEntry → Text
shown_frontend c = if is_empty c.frontend then codes "default" else c.frontend

abbrev pub shown_cert : TlsCertEntry → TlsCertEntry
shown_cert c = record c { frontend = shown_frontend c }

abbrev pub IsPrinted : (ℕ → Text) → (Text → Option ℕ) → TlsCertEntry → Type 0
IsPrinted format_time parse_time c =
    IsWord (shown_frontend c)
    × IsWord c.state
    × IsWord c.hostname
    × IsWord c.certificate_id
    × IsDate format_time parse_time c.expiration

abbrev flag : Bool → Text
flag b = if b then codes "true" else codes "false"

flag-IsWord : (b : Bool) → IsWord (flag b)
flag-IsWord true = (λ e. absurd (cc e), (refl, (refl, (refl, (refl, tt)))))
flag-IsWord false = (λ e. absurd (cc e), (refl, (refl, (refl, (refl, (refl, tt))))))

is_on-flag : (b : Bool) → is_on (flag b) ≡ b
unfolding is_on
is_on-flag true = refl
is_on-flag false = refl

heading_trimmed : trim_space list_heading ≡ list_heading
unfolding trim_space
heading_trimmed = refl

frontend-IsWord : IsWord (codes "Frontend")
frontend-IsWord =
    (λ e. absurd (cc e), (refl, (refl, (refl, (refl, (refl, (refl, (refl, (refl, tt)))))))))

heading-Lacks : Lacks b'\n' list_heading
heading-Lacks = ground arith

without_heading-heading : (rest : List Text) → without_heading (list_heading ∷ rest) ≡ rest
unfolding without_heading
without_heading-heading rest = refl

filled : (w s : Text) → IsWord w → is_empty (w ++ s) ≡ false
filled [] s (n, h) = absurd (n refl)
filled (x ∷ w) s h = refl

module _ (format_time : ℕ → Text) (parse_time : Text → Option ℕ) (id : Text) (c : TlsCertEntry)
    (h : IsPrinted format_time parse_time c) where
  date_line :
      fields (pad 25 (format_time c.expiration) ++ flag c.ocsp_stapling)
      ≡ h.4.month ∷ h.4.more.0 ∷ h.4.more.1 ∷ h.4.more.2 ∷ h.4.more.3 ∷ flag c.ocsp_stapling ∷ []
  date_line =
      ap (λ s. fields (pad 25 s ++ flag c.ocsp_stapling)) h.4.printed
      ∙ fields-pad_words 25 h.4.month _ (flag c.ocsp_stapling) h.4.month_word
          (h.4.more_words.0, (h.4.more_words.1, (h.4.more_words.2, (h.4.more_words.3, tt))))
      ∙ ap (λ fs. h.4.month ∷ h.4.more.0 ∷ h.4.more.1 ∷ h.4.more.2 ∷ h.4.more.3 ∷ fs)
          (fields_word (flag c.ocsp_stapling) (flag-IsWord c.ocsp_stapling))

  line_fields :
      fields (cert_line format_time (id, c))
      ≡ shown_frontend c
        ∷ c.state
        ∷ c.hostname
        ∷ c.certificate_id
        ∷ h.4.month
        ∷ h.4.more.0
        ∷ h.4.more.1
        ∷ h.4.more.2
        ∷ h.4.more.3
        ∷ flag c.ocsp_stapling
        ∷ []
  line_fields =
      fields-pad_word 8 (shown_frontend c) _ h.0
      ∙ ap (λ fs. shown_frontend c ∷ fs)
          (fields-pad_word 7 c.state _ h.1
            ∙ ap (λ fs. c.state ∷ fs)
                (fields-pad_word 16 c.hostname _ h.2
                  ∙ ap (λ fs. c.hostname ∷ fs)
                      (fields-pad_word 15 c.certificate_id _ h.3
                        ∙ ap (λ fs. c.certificate_id ∷ fs) date_line)))

  line_read : parse_tls_cert_line parse_time (cert_line format_time (id, c)) ≡ some (shown_cert c)
  unfolding parse_tls_cert_line cert_of
  line_read = rw (line_fields, sym h.4.printed, h.4.read, is_on-flag c.ocsp_stapling) refl

  date-Lacks : Lacks b'\n' (format_time c.expiration)
  date-Lacks =
      subst (Lacks b'\n')
        (sym (
          h.4.printed
          ∙ join-spaced h.4.month (h.4.more.0 ∷ h.4.more.1 ∷ h.4.more.2 ∷ h.4.more.3 ∷ [])))
        (words-Lacks b'\n' h.4.month _ refl refl h.4.month_word
          (h.4.more_words.0, (h.4.more_words.1, (h.4.more_words.2, (h.4.more_words.3, tt)))))

  cert_line-Lacks : Lacks b'\n' (cert_line format_time (id, c))
  cert_line-Lacks =
      pad-Lacks 8 (shown_frontend c) _ (no_space-Lacks b'\n' (shown_frontend c) refl h.0.1) (
        pad-Lacks 7 c.state _ (no_space-Lacks b'\n' c.state refl h.1.1) (
          pad-Lacks 16 c.hostname _ (no_space-Lacks b'\n' c.hostname refl h.2.1) (
            pad-Lacks 15 c.certificate_id _ (no_space-Lacks b'\n' c.certificate_id refl h.3.1) (
              pad-Lacks 25 (format_time c.expiration) _ date-Lacks (
                no_space-Lacks b'\n' (flag c.ocsp_stapling) refl
                  (flag-IsWord c.ocsp_stapling).1)))))

  -- The line behind its first word.
  abbrev line_rest : Text
  line_rest =
      pad 7 c.state
      ++ (pad 16 c.hostname
          ++ (pad 15 c.certificate_id
              ++ (pad 25 (format_time c.expiration) ++ flag c.ocsp_stapling)))

  line_rest-EndsWord : EndsWord line_rest
  line_rest-EndsWord = EndsWord-append (pad 7 c.state) _ (
      EndsWord-append (pad 16 c.hostname) _ (
        EndsWord-append (pad 15 c.certificate_id) _ (
          EndsWord-append (pad 25 (format_time c.expiration)) _
            ([], flag c.ocsp_stapling, flag-IsWord c.ocsp_stapling, refl))))

  cert_line-EndsWord : EndsWord (cert_line format_time (id, c))
  cert_line-EndsWord = EndsWord-append (pad 8 (shown_frontend c)) line_rest line_rest-EndsWord

  line_trimmed : trim_space (cert_line format_time (id, c)) ≡ cert_line format_time (id, c)
  line_trimmed =
      ap trim_space (pad-append 8 (shown_frontend c) line_rest)
      ∙ trim_space-EndsWord (shown_frontend c) _ h.0 (
          EndsWord-append _ (b' ' ∷ line_rest)
            (EndsWord-append (b' ' ∷ []) line_rest line_rest-EndsWord))
      ∙ sym (pad-append 8 (shown_frontend c) line_rest)

  line_filled : is_empty (cert_line format_time (id, c)) ≡ false
  line_filled =
      ap is_empty (pad-append 8 (shown_frontend c) line_rest) ∙ filled (shown_frontend c) _ h.0

  parse_entries-cert :
      (rest : List Text) (entries : List TlsCertEntry)
      → parse_entries (parse_tls_cert_line parse_time) rest ≡ some entries
      → parse_entries (parse_tls_cert_line parse_time) (cert_line format_time (id, c) ∷ rest)
        ≡ some (shown_cert c ∷ entries)
  unfolding parse_entries
  parse_entries-cert rest entries e = rw (line_trimmed, line_filled, line_read, e) refl

module _ (format_time : ℕ → Text) (parse_time : Text → Option ℕ) where
  abbrev pub ArePrinted : Map Text TlsCertEntry → Type 0
  ArePrinted certs =
      All (λ (entry : Text × TlsCertEntry). IsPrinted format_time parse_time entry.1) certs

  cert_lines-Lacks :
      (certs : Map Text TlsCertEntry)
      → ArePrinted certs
      → All (Lacks b'\n') (map (cert_line format_time) certs)
  cert_lines-Lacks [] h = tt
  cert_lines-Lacks ((id, c) ∷ certs) (p, h) =
      (cert_line-Lacks format_time parse_time id c p, cert_lines-Lacks certs h)

  parse_entries-certs :
      (certs : Map Text TlsCertEntry)
      → ArePrinted certs
      → parse_entries (parse_tls_cert_line parse_time) (map (cert_line format_time) certs)
        ≡ some (map (λ entry. shown_cert entry.1) certs)
  unfolding parse_entries
  parse_entries-certs [] h = refl
  parse_entries-certs ((id, c) ∷ certs) (p, h) =
      parse_entries-cert format_time parse_time id c p (map (cert_line format_time) certs) _
        (parse_entries-certs certs h)

  cert_lines-EndsWord :
      (entry : Text × TlsCertEntry) (certs : Map Text TlsCertEntry)
      → ArePrinted (entry ∷ certs)
      → EndsWord (join (map (cert_line format_time) (entry ∷ certs)) (b'\n' ∷ []))
  unfolding join
  cert_lines-EndsWord (id, c) [] (p, h) = cert_line-EndsWord format_time parse_time id c p
  cert_lines-EndsWord (id, c) (next ∷ certs) (p, h) =
      EndsWord-append (cert_line format_time (id, c)) _
        (EndsWord-append (b'\n' ∷ []) _ (cert_lines-EndsWord next certs h))

  abbrev printed_list : Map Text TlsCertEntry → Text
  printed_list certs = join (list_heading ∷ map (cert_line format_time) certs) (b'\n' ∷ [])

  printed_list-trimmed :
      (certs : Map Text TlsCertEntry)
      → ArePrinted certs
      → trim_space (printed_list certs) ≡ printed_list certs
  unfolding join
  printed_list-trimmed [] h = heading_trimmed
  printed_list-trimmed (entry ∷ certs) h =
      trim_space-EndsWord (codes "Frontend") _ frontend-IsWord (
        EndsWord-append
          (codes
            " State   Hostname         Certificate ID  Expiration date           OCSP stapling")
          _ (EndsWord-append (b'\n' ∷ []) _ (cert_lines-EndsWord entry certs h)))

  parse_printed_list :
      (certs : Map Text TlsCertEntry)
      → ArePrinted certs
      → parse_tls_cert_list parse_time (printed_list certs)
        ≡ some (map (λ entry. shown_cert entry.1) certs)
  unfolding parse_tls_cert_list lines
  parse_printed_list certs h =
      ap (λ s. parse_entries (parse_tls_cert_line parse_time) (without_heading (lines s)))
        (printed_list-trimmed certs h)
      ∙ ap (λ ls. parse_entries (parse_tls_cert_line parse_time) (without_heading ls))
          (split-join b'\n' list_heading (map (cert_line format_time) certs) heading-Lacks
            (cert_lines-Lacks certs h))
      ∙ ap (parse_entries (parse_tls_cert_line parse_time))
          (without_heading-heading (map (cert_line format_time) certs))
      ∙ parse_entries-certs certs h

  -- The mock as the server that a command is sent to.
  abbrev pub mock_exec : ℕ → Text → MockVarnishadm → Option VarnishResponse × MockVarnishadm
  unfolding exec
  mock_exec now cmd m = let (response, next) = exec now format_time cmd m in (some response, next)

  -- Unless an error is set as the answer to the command, the mock's list of its committed certificates is read
  -- back as these, in their order and without a loss, where names are words and dates are printed as
  -- five words that parse to the same time; only a missing frontend becomes `default`.
  pub tls_cert_list_structured-mock_exec :
      (now : ℕ) (m : MockVarnishadm)
      → error_response (lookup (codes "tls.cert.list") m.responses) ≡ none
      → ArePrinted m.tls_certs_committed
      → (tls_cert_list_structured (mock_exec now) parse_time m).0
        ≡ answered (map (λ entry. shown_cert entry.1) m.tls_certs_committed)
  unfolding tls_cert_list_structured read_answer exec vcltest.Varnishadm.dispatch
  tls_cert_list_structured-mock_exec now m e h =
      rw (e, parse_printed_list m.tls_certs_committed h) refl
