-- ===== src/WaitUntil/Report.antt =====
-- What internal/provider/wait_until_resource.go says of a wait: the durations of its attributes,
-- the excerpts of output, the diagnostic of a failure and the summary file.
use terraform_provider_zedam.Prelude.{
  ℕ, zero, suc, ◌-◌, Bool, true, false, ◌||◌, List, [], ◌∷◌, ◌++◌, Option, none, some,
  if◌then◌else◌, ltb, leb, ◌==◌, length, drop, map, reverse,
}
use terraform_provider_zedam.Prelude.Int.{ℤ, pos, negsuc}
use terraform_provider_zedam.Text.{Text, codes, is_empty, trim_space, split, join}
use terraform_provider_zedam.Text.Decimal.{format}
use terraform_provider_zedam.Diag.{Diagnostic}
use terraform_provider_zedam.GoError.{GoError, error_text}
use terraform_provider_zedam.Exec.{Result, format_int}
use terraform_provider_zedam.Attr.{Attr, null, unknown, known}
use terraform_provider_zedam.WaitUntil.{
  ProbeKind, ready, not_ready, exec_error, hung, kind_string, WaitParams, WaitOutcome, WaitError,
  wait_timeout, aborted, not_run,
}

-- `time.ParseDuration`, in nanoseconds
pub data Duration : Type 0 where
  duration : ℤ → Duration
  no_duration : GoError → Duration

-- Go's package `time`: the parser, the print of a duration and its rounding to seconds; and
-- whether an error is, or wraps, one of a cancelled context.
pub record TimeLib : Type 0 where
  pub parse_duration : Text → Duration
  pub show : ℤ → Text
  pub round_second : ℕ → ℕ
  pub is_cancelled : GoError → Bool

abbrev pub wait_error : Text
wait_error = codes "Wait Until Resource Error"

-- an attribute's text, or its default
abbrev pub text_or : Attr Text → Text → Text
text_or null fallback = fallback
text_or unknown fallback = fallback
text_or (known s) fallback = s

-- `tailString`
unfoldable pub tail_string : Text → ℕ → Text
tail_string s n =
    if n == 0 || leb (length s) n then s else codes "...[truncated]...\n" ++ drop (length s - n) s

trim_newlines : Text → Text
trim_newlines [] = []
trim_newlines (c ∷ s) = let rest = trim_newlines s in if c == 10 then rest else c ∷ s

-- `indentLines`; `strings.TrimRight(s, "\n")` trims the reversed text
unfoldable pub indent_lines : Text → Text
unfolding trim_newlines
indent_lines s =
    join (map (λ l. codes "  " ++ l) (split (reverse (trim_newlines (reverse s))) 10)) (codes "\n")

module _ (tl : TimeLib) where
  open tl use {parse_duration, show, round_second, is_cancelled}

  unfoldable pub duration_error : Text → Text → List Diagnostic
  duration_error name detail =
      record { summary = wait_error; detail = codes "`" ++ (name ++ detail) } ∷ []

  unfoldable pub positive : Text → Duration → ℕ × List Diagnostic
  unfolding duration_error
  positive name (no_duration e) = (
    0,
    record {
      summary = wait_error;
      detail = codes "Can't parse `" ++ (name ++ (codes "` as a duration: " ++ error_text e));
    }
        ∷ [],
  )
  positive name (duration (negsuc n)) = (
    0,
    duration_error name
        (codes "` must be a positive duration, got " ++ (show (negsuc n) ++ codes ".")),
  )
  positive name (duration (pos zero)) = (
    0,
    duration_error name
        (codes "` must be a positive duration, got " ++ (show (pos zero) ++ codes ".")),
  )
  positive name (duration (pos (suc n))) = (suc n, [])

  -- the closure `parse` of `waitUntilDurations`: a duration and the diagnostics it adds
  unfoldable pub parse_attr : Text → Attr Text → Text → ℕ × List Diagnostic
  unfolding positive
  parse_attr name v fallback =
      if is_empty (text_or v fallback)
      then (0, [])
      else positive name (parse_duration (text_or v fallback))

  -- `waitUntilDurations`: timeout, interval, attempt timeout and the diagnostics
  unfoldable pub wait_until_durations :
      Attr Text → Attr Text → Attr Text → ℕ × ℕ × ℕ × List Diagnostic
  wait_until_durations timeout interval attempt_timeout =
      let (t, d1) = parse_attr (codes "timeout") timeout (codes "30m") in
      let (i, d2) = parse_attr (codes "interval") interval (codes "15s") in
      let (a, d3) = parse_attr (codes "attempt_timeout") attempt_timeout [] in
      (t, i, a, d1 ++ (d2 ++ d3))

  abbrev pub wait_text : WaitError → Text
  wait_text wait_timeout = codes "the script did not succeed before the timeout"
  wait_text (aborted e) = error_text e
  wait_text (not_run e) = error_text e

  -- `errors.Is(err, context.Canceled) || errors.Is(err, context.DeadlineExceeded)`
  abbrev pub cancelled_wait : WaitError → Bool
  cancelled_wait wait_timeout = false
  cancelled_wait (aborted e) = is_cancelled e
  cancelled_wait (not_run e) = is_cancelled e

  -- the summary, and the first line of the detail
  headline : WaitOutcome → WaitParams → WaitError → Bool → Text × Text
  headline o p wait_timeout cancelled = (
    codes "Timed out waiting for the condition",
    codes "The script did not exit 0 within " ++ (show (pos p.timeout) ++ codes ".\n"),
  )
  headline o p err true = (
    codes "Waiting for the condition was aborted",
    codes "The wait was cancelled after "
        ++ (show (pos (round_second o.elapsed)) ++ (codes ": " ++ (wait_text err ++ codes "\n"))),
  )
  headline o p err false =
      (codes "The script could not be run on the target", wait_text err ++ codes "\n")

  error_or_nil : Option GoError → Text
  error_or_nil none = codes "%!s(<nil>)"
  error_or_nil (some e) = error_text e

  -- the lines on the last attempt, and the attempt whose output is shown
  last_attempt : WaitOutcome → ProbeKind → Bool → Text × Result
  unfolding error_or_nil
  last_attempt o hung cancelled =
      let line =
        if cancelled
        then codes
            "last attempt: abandoned mid-run by the cancellation (the process may still be running on the target)\n"
        else codes
            "last attempt: abandoned, it did not finish within its budget (the process may still be running on the target)\n" in
      if ltb 0 o.last_completed_attempt
      then (
        line
            ++ (codes "last completed attempt (#"
                ++ (format o.last_completed_attempt
                    ++ (codes ") exit code: "
                        ++ (format_int o.last_completed.exit_code ++ codes "\n")))),
        o.last_completed,
      )
      else (line, o.last)
  last_attempt o exec_error cancelled = (
    codes "last attempt: could not be run: " ++ (error_or_nil o.last.error ++ codes "\n"),
    o.last,
  )
  last_attempt o ready cancelled =
      (codes "last attempt exit code: " ++ (format_int o.last.exit_code ++ codes "\n"), o.last)
  last_attempt o not_ready cancelled =
      (codes "last attempt exit code: " ++ (format_int o.last.exit_code ++ codes "\n"), o.last)

  -- one of the two streams, if something stands in it
  excerpt : Text → Text → Text
  excerpt title stream =
      let s = trim_space stream in
      if is_empty s
      then []
      else codes "\nlast "
        ++ (title ++ (codes ":\n" ++ (indent_lines (tail_string s 8192) ++ codes "\n")))

  -- `waitUntilErrDiag`
  unfoldable pub wait_until_err_diag : WaitOutcome → WaitParams → Text → WaitError → Diagnostic
  unfolding headline last_attempt excerpt
  wait_until_err_diag o p resource_dir err =
      let (summary, first) = headline o p err (cancelled_wait err) in
      let (line, shown) = last_attempt o o.last_kind (cancelled_wait err) in
      record {
        summary = summary;
        detail =
            first
            ++ (codes "attempts: "
                ++ (format o.attempts
                    ++ (codes ", elapsed: "
                        ++ (show (pos (round_second o.elapsed))
                            ++ (codes ", interval: "
                                ++ (show (pos p.interval)
                                    ++ (codes "\n"
                                        ++ (line
                                            ++ (excerpt (codes "stderr") shown.stderr
                                                ++ (excerpt (codes "stdout") shown.stdout
                                                    ++ (codes
                                                          "\nThe script and the per-attempt output logs were kept on the target under:\n  "
                                                        ++ (resource_dir ++ codes "\n"))))))))))));
      }

  outcome_word : Option WaitError → Text
  outcome_word none = codes "succeeded"
  outcome_word (some wait_timeout) = codes "timed out"
  outcome_word (some err) = if cancelled_wait err then codes "aborted" else codes "could not run"

  error_line : Option WaitError → Text
  error_line none = []
  error_line (some err) = codes "error:           " ++ (wait_text err ++ codes "\n")

  abbrev line : Text → Text → Text
  line title value = title ++ (value ++ codes "\n")

  -- the text that `writeSummary` writes
  unfoldable pub summary_text : WaitParams → WaitOutcome → Option WaitError → Text
  unfolding outcome_word error_line
  summary_text p o err =
      line (codes "outcome:         ") (outcome_word err)
      ++ (line (codes "argv:            ") (codes "[" ++ (join p.argv (codes " ") ++ codes "]"))
          ++ (line (codes "timeout:         ") (show (pos p.timeout))
              ++ (line (codes "interval:        ") (show (pos p.interval))
                  ++ (line (codes "attempt_timeout: ") (
                        if ltb 0 p.attempt_timeout
                        then show (pos p.attempt_timeout)
                        else codes "(none)")
                      ++ (line (codes "attempts:        ") (format o.attempts)
                          ++ (line (codes "elapsed:         ") (show (pos (round_second o.elapsed)))
                              ++ (line (codes "last attempt:    ") (
                                    kind_string o.last_kind
                                    ++ (codes ", exit code " ++ format_int o.last.exit_code))
                                  ++ (line (codes "last logs:       ") o.last_logs
                                      ++ error_line err))))))))
