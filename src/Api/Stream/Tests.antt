-- ===== src/Api/Stream/Tests.antt =====
-- A stream of two rounds, and the theorems at it.
use rollhook.Prelude.{All, map, true, false, some, List, [], ◌∷◌, ◌++◌, inr, ◌≡◌, refl}
use rollhook.Text.{Bytes, codes, beq, split, trim_right}
use rollhook.Store.{status_running, status_success, status_failed}
use rollhook.Api.Stream.{
  data_line, done, Round, line_message, read_pieces, read_lines, partial_message, is_terminal,
  is_finished, found_job, stream, stream_logs,
}
use rollhook.Api.Stream.Lines.{IsWhole, text_messages}
use rollhook.Api.Stream.Complete.{Follows, ends, goes_on, stream-Follows, stream-late}
use rollhook.Store.Logs.{append_log_line}
use rollhook.Api.Stream.Appended.{line_text, append_lines, IsLine, stream-append_lines}
use rollhook.Api.Stream.Verdict.{Fits, stream_logs-Fits}

abbrev first_round : Round
first_round = record {
  found = codes "one" ++ 13 ∷ 10 ∷ 10 ∷ [];
  read_fails = false;
  late = codes "tw";
  status = some status_running;
  gone = false;
}

abbrev last_round : Round
last_round = record {
  found = codes "o";
  read_fails = false;
  late = codes "three" ++ 10 ∷ [];
  status = some status_success;
  gone = false;
}

abbrev rounds : List Round
rounds = first_round ∷ last_round ∷ []

-- The return and the empty line are dropped, the last line needs no delimiter, and what is appended
-- late is not sent.
streamed : stream [] rounds ≡ data_line (codes "one") ∷ data_line (codes "two") ∷ done ∷ []
unfolding stream read_lines read_pieces line_message partial_message is_finished is_terminal split
    trim_right beq
streamed = refl

first_round-IsWhole : IsWhole first_round.found
first_round-IsWhole = inr (codes "one" ++ 13 ∷ 10 ∷ [], refl)

followed : Follows [] rounds ((codes "one" ++ 13 ∷ 10 ∷ 10 ∷ []) ++ (codes "tw" ++ codes "o"))
unfolding is_finished is_terminal
followed = goes_on refl refl refl first_round-IsWhole (ends refl refl)

stream-Follows_example :
    stream [] rounds
    ≡ text_messages ((codes "one" ++ 13 ∷ 10 ∷ 10 ∷ []) ++ (codes "tw" ++ codes "o")) ++ done ∷ []
stream-Follows_example =
    stream-Follows [] rounds ((codes "one" ++ 13 ∷ 10 ∷ 10 ∷ []) ++ (codes "tw" ++ codes "o"))
      followed

abbrev ended_round : Round
ended_round = record first_round { late = codes "two" ++ 10 ∷ []; status = some status_failed }

ended : is_finished ended_round.status ≡ true
unfolding is_finished is_terminal
ended = refl

stream-late_example :
    (stream [] (ended_round ∷ []) ≡ text_messages ended_round.found ++ done ∷ [])
    × (text_messages (ended_round.found ++ ended_round.late)
        ≡ text_messages ended_round.found ++ text_messages ended_round.late)
stream-late_example = stream-late ended_round [] refl ended first_round-IsWhole

-- The log of a job that has ended has been removed.
stream_logs-Fits_example :
    Fits
      (found_job status_failed)
      true
      (λ i. false)
      (stream_logs (found_job status_failed) true (λ i. false) (λ i. false) [])
stream_logs-Fits_example =
    stream_logs-Fits (found_job status_failed) true (λ i. false) (λ i. false) []

-- Two lines that are appended, the second one while the first is read.
abbrev written : List (Bytes × Bytes)
written = (codes "12:00", codes "one") ∷ (codes "12:01", codes "two") ∷ []

abbrev running_round : Round
running_round = record first_round {
  found = codes "[12:00] one" ++ 10 ∷ [];
  late = codes "[12:01] two";
}

abbrev closing_round : Round
closing_round = record last_round { found = 10 ∷ []; late = [] }

written-IsLine : All IsLine written
written-IsLine = (
  (refl, (refl, (refl, (refl, (refl, (refl, (refl, (refl, (refl, (refl, (refl, tt))))))))))),
  ((refl, (refl, (refl, (refl, (refl, (refl, (refl, (refl, (refl, (refl, (refl, tt))))))))))), tt),
)

written-Follows : Follows [] (running_round ∷ closing_round ∷ []) (append_lines written [])
unfolding append_log_line is_finished is_terminal
written-Follows =
    goes_on refl refl refl (inr (codes "[12:00] one", refl))
      (ends {ahead = codes "[12:01] two"} refl refl)

stream-append_lines_example :
    stream [] (running_round ∷ closing_round ∷ [])
    ≡ map (λ l. data_line (line_text l)) written ++ done ∷ []
stream-append_lines_example =
    stream-append_lines (running_round ∷ closing_round ∷ []) written written-IsLine written-Follows
