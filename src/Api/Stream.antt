-- ===== src/Api/Stream.antt =====
-- internal/api/jobs.go: `StreamLogsHandler`, which sends the log of a job as server-sent events
-- while the job runs. The file grows and the job's status changes between the reads: what each read
-- and each query finds is in a sequence of rounds, one for each time that the loop comes to the end
-- of the file.
pub mod Lines
pub mod Complete
pub mod Appended
pub mod Verdict
pub mod Tests
use rollhook.Prelude.{
  ℕ, zero, suc, ◌+◌, ◌-◌, Bool, true, false, ◌||◌, Option, none, some, List, [], ◌∷◌, ◌++◌, ◌==◌,
  if◌then◌else◌,
}
use rollhook.Text.{Bytes, codes, beq, split, trim_right}
use rollhook.Store.{
  JobStatus, status_queued, status_running, status_success, status_failed, Job, Table,
}

-- `isTerminal`
pub is_terminal : JobStatus → Bool
is_terminal status_success = true
is_terminal status_failed = true
is_terminal _ = false

-- `current != nil && isTerminal(current.Status)`, for what `store.Get` returns; `none` is also its
-- error.
pub is_finished : Option JobStatus → Bool
unfolding is_terminal
is_finished none = false
is_finished (some status) = is_terminal status

-- An event of the stream; `done` is the closing message.
pub data Message : Type 0 where
  data_line : Bytes → Message
  log_removed done : Message

-- One pass of the loop to the end of the file.
pub record Round : Type 0 where
  -- What the reads find up to the end of the file, beyond what earlier rounds have read.
  pub found : Bytes
  -- A read fails with another error than the end of the file.
  pub read_fails : Bool
  -- What is appended to the file before `store.Get` answers.
  pub late : Bytes
  pub status : Option JobStatus
  -- The request's context is done before the pause is over.
  pub gone : Bool

-- `strings.TrimRight(line, "\r\n")`
abbrev pub is_eol : ℕ → Bool
is_eol c = c == 13 || c == 10

abbrev pub newline : ℕ
newline = 10

-- A complete line, with its delimiter.
pub line_message : Bytes → List Message
line_message piece =
    let line = trim_right is_eol (piece ++ newline ∷ []) in
    if beq line [] then [] else data_line line ∷ []

-- `ReadString` until it reports the end of the file: the messages of the complete lines, and the
-- rest, which is consumed as well.
pub read_pieces : List Bytes → List Message × Bytes
unfolding line_message
read_pieces [] = ([], [])
read_pieces (p ∷ []) = ([], p)
read_pieces (p ∷ q ∷ ps) = let (ms, rest) = read_pieces (q ∷ ps) in (line_message p ++ ms, rest)

pub read_lines : Bytes → List Message × Bytes
unfolding read_pieces
read_lines unread = read_pieces (split newline unread)

-- The line behind the last delimiter, when the job has ended.
pub partial_message : Bytes → List Message
partial_message line = if beq line [] then [] else data_line (trim_right is_eol line) ∷ []

-- The loop, with what the file holds already behind the position of the reader.
pub stream : Bytes → List Round → List Message
unfolding read_lines partial_message is_finished
stream ahead [] = []
stream ahead (r ∷ rs) =
    let (ms, line) = read_lines (ahead ++ r.found) in
    let rest = stream r.late rs in
    ms
    ++ (if r.read_fails
        then []
        else if is_finished r.status
        then partial_message line ++ done ∷ []
        else if r.gone
        then []
        else rest)

-- The attempts to open the file: whether each succeeds, and whether the context is done in the
-- pause before the next.
pub data Opening : Type 0 where
  opened gave_up request_gone : Opening

pub open_log : ℕ → (ℕ → Bool) → (ℕ → Bool) → ℕ → Opening
open_log i can_open gone zero = if can_open i then opened else gave_up
open_log i can_open gone (suc n) =
    let next = open_log (suc i) can_open gone n in
    if can_open i then opened else if gone i then request_gone else next

-- What `store.Get` returns for the id of the request: an error, no job, or the job's status.
pub data Lookup : Type 0 where
  lookup_failed no_job : Lookup
  found_job : JobStatus → Lookup

pub data Response : Type 0 where
  not_found unsupported : Response
  messages : List Message → Response

pub opened_stream : Opening → List Round → List Message
unfolding stream
opened_stream opened rounds = stream [] rounds
opened_stream gave_up rounds = done ∷ []
opened_stream request_gone rounds = []

-- The first attempt to open the file fails for a job that has ended: the log has been removed.
pub answer_log : Bool → Bool → List Message → Response
answer_log true ended followed = messages followed
answer_log false true followed = messages (log_removed ∷ done ∷ [])
answer_log false false followed = messages followed

-- `StreamLogsHandler`, with what `store.Get` returns for the id of the request and whether the
-- writer can flush.
pub stream_logs : Lookup → Bool → (ℕ → Bool) → (ℕ → Bool) → List Round → Response
unfolding opened_stream open_log is_terminal answer_log
stream_logs lookup_failed flusher can_open gone rounds = not_found
stream_logs no_job flusher can_open gone rounds = not_found
stream_logs (found_job status) false can_open gone rounds = unsupported
stream_logs (found_job status) true can_open gone rounds =
    answer_log (can_open 0) (is_terminal status)
      (opened_stream (open_log 0 can_open gone 19) rounds)
