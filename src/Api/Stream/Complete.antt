-- ===== src/Api/Stream/Complete.antt =====
-- Which parts of the log reach the client.
use rollhook.Prelude.{true, false, List, [], ◌∷◌, ◌++◌, append_assoc, ◌≡◌, sym, ap, ◌∙◌}
use rollhook.Text.{Bytes}
use rollhook.Api.Stream.{done, Round, read_lines, partial_message, is_finished, stream}
use rollhook.Api.Stream.Lines.{
  log_messages, IsWhole, log_messages-append, only_lines, text_messages, log_messages-text,
}

-- The loop goes on behind whole lines until a round finds the job ended; the text is what it has
-- read.
pub data Follows : Bytes → List Round → Bytes → Type 0 where
  ends :
      {ahead : Bytes} {r : Round} {rs : List Round}
      → r.read_fails ≡ false
      → is_finished r.status ≡ true
      → Follows ahead (r ∷ rs) (ahead ++ r.found)
  goes_on :
      {ahead : Bytes} {r : Round} {rs : List Round} {log : Bytes}
      → r.read_fails ≡ false
      → is_finished r.status ≡ false
      → r.gone ≡ false
      → IsWhole (ahead ++ r.found)
      → Follows r.late rs log
      → Follows ahead (r ∷ rs) ((ahead ++ r.found) ++ log)

pub stream-log_messages :
    (ahead : Bytes) (rounds : List Round) (log : Bytes)
    → Follows ahead rounds log
    → stream ahead rounds ≡ log_messages log ++ done ∷ []
unfolding stream
stream-log_messages ahead [] log x = elim x [ ]
stream-log_messages ahead (r ∷ rs) log (ends f e) =
    rw (f, e)
      (sym (
        append_assoc (read_lines (ahead ++ r.found)).0
          (partial_message (read_lines (ahead ++ r.found)).1) (done ∷ [])))
stream-log_messages ahead (r ∷ rs) log (goes_on {log = later} f e g whole rest) =
    rw (f, e, g)
      (ap (λ x. (read_lines (ahead ++ r.found)).0 ++ x) (stream-log_messages r.late rs later rest)
        ∙ sym (append_assoc (read_lines (ahead ++ r.found)).0 (log_messages later) (done ∷ []))
        ∙ ap (λ x. x ++ done ∷ []) (sym (log_messages-append (ahead ++ r.found) later whole).0))

-- While every round ends behind a whole line, the client gets one message for each line of the text
-- that has been read when the job is found to have ended, in order, with the line without the
-- returns at its end, except the lines that are empty without them; then one for the text behind
-- the last newline, if there is any; then the closing message.
pub stream-Follows :
    (ahead : Bytes) (rounds : List Round) (log : Bytes)
    → Follows ahead rounds log
    → stream ahead rounds ≡ text_messages log ++ done ∷ []
stream-Follows ahead rounds log h =
    stream-log_messages ahead rounds log h ∙ ap (λ m. m ++ done ∷ []) (log_messages-text log)

-- Lines that are appended between the read that finds the end of the file, behind a whole line, and
-- the query that finds the job ended never reach the client: it gets exactly the messages of what
-- was read and the closing message, while the messages of the whole log are those and then those of
-- the late lines.
pub stream-late :
    (r : Round) (rs : List Round)
    → r.read_fails ≡ false
    → is_finished r.status ≡ true
    → IsWhole r.found
    → (stream [] (r ∷ rs) ≡ text_messages r.found ++ done ∷ [])
      × (text_messages (r.found ++ r.late) ≡ text_messages r.found ++ text_messages r.late)
stream-late r rs f e whole =
    let (front, no_rest) = log_messages-append r.found r.late whole in
    (
      stream-Follows [] (r ∷ rs) r.found (ends f e),
      sym (log_messages-text (r.found ++ r.late))
          ∙ front
          ∙ ap (λ m. m ++ log_messages r.late)
              (sym (only_lines r.found no_rest) ∙ log_messages-text r.found)
          ∙ ap (λ m. text_messages r.found ++ m) (log_messages-text r.late),
    )
