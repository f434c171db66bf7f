-- ===== src/Api/Stream/Verdict.antt =====
-- How the stream of a log ends, and when the log is opened.
use rollhook.Prelude.{
  ℕ, Bool, true, false, List, [], ◌∷◌, ◌++◌, append_assoc, ◌≡◌, ◌≢◌, refl, sym, ap, ◌∙◌, arith, ◌⊎◌,
  inl, inr, All, All-append, Bool-cases,
}
use rollhook.Text.{Bytes, beq, trim_right, split}
use rollhook.Store.{JobStatus}
use rollhook.Api.Stream.{
  Message, log_removed, done, Round, newline, is_eol, line_message, read_pieces, read_lines,
  partial_message, is_terminal, is_finished, stream, Opening, opened, gave_up, request_gone,
  open_log, Lookup, lookup_failed, no_job, found_job, opened_stream, answer_log, Response,
  not_found, unsupported, messages, stream_logs,
}

abbrev pub IsOpen : List Message → Type 0
IsOpen ms = All (λ m. m ≢ done) ms

-- No closing message, or one, and nothing behind it.
abbrev pub IsClosed : List Message → Type 0
IsClosed ms = IsOpen ms ⊎ ((front : List Message) × (ms ≡ front ++ done ∷ []) × IsOpen front)

IsOpen-line_message : (p : Bytes) → IsOpen (line_message p)
unfolding line_message
IsOpen-line_message p = elim (Bool-cases (beq (trim_right is_eol (p ++ newline ∷ [])) [])) [
  | inl e ↦ rw e tt
  | inr e ↦ rw e (λ h. ground (arith, h), tt)
]

IsOpen-partial_message : (p : Bytes) → IsOpen (partial_message p)
unfolding partial_message
IsOpen-partial_message p = elim (Bool-cases (beq p [])) [
  | inl e ↦ rw e tt
  | inr e ↦ rw e (λ h. ground (arith, h), tt)
]

IsOpen-read_pieces : (ps : List Bytes) → IsOpen (read_pieces ps).0
unfolding read_pieces
IsOpen-read_pieces [] = tt
IsOpen-read_pieces (p ∷ []) = tt
IsOpen-read_pieces (p ∷ q ∷ ps) =
    All-append (λ m. m ≢ done) (line_message p) (read_pieces (q ∷ ps)).0 (IsOpen-line_message p)
      (IsOpen-read_pieces (q ∷ ps))

IsOpen-read_lines : (unread : Bytes) → IsOpen (read_lines unread).0
unfolding read_lines
IsOpen-read_lines unread = IsOpen-read_pieces (split newline unread)

IsClosed-append : (ms ns : List Message) → IsOpen ms → IsClosed ns → IsClosed (ms ++ ns)
IsClosed-append ms ns o (inl p) = inl (All-append (λ m. m ≢ done) ms ns o p)
IsClosed-append ms ns o (inr (front, e, p)) = inr (
  ms ++ front,
  ap (λ x. ms ++ x) e ∙ sym (append_assoc ms front (done ∷ [])),
  All-append (λ m. m ≢ done) ms front o p,
)

stream-IsClosed : (ahead : Bytes) (rounds : List Round) → IsClosed (stream ahead rounds)
unfolding stream
stream-IsClosed ahead [] = inl tt
stream-IsClosed ahead (r ∷ rs) =
    IsClosed-append _ _ (IsOpen-read_lines (ahead ++ r.found)) (elim (Bool-cases r.read_fails) [
      | inl f ↦ rw f (inl tt)
      | inr f ↦ elim (Bool-cases (is_finished r.status)) [
        | inl e ↦
            rw (f, e) (inr (_, refl, IsOpen-partial_message (read_lines (ahead ++ r.found)).1))
        | inr e ↦ elim (Bool-cases r.gone) [
          | inl g ↦ rw (f, e, g) (inl tt)
          | inr g ↦ rw (f, e, g) (stream-IsClosed r.late rs)
        ]
      ]
    ])

opened_stream-IsClosed : (o : Opening) (rounds : List Round) → IsClosed (opened_stream o rounds)
unfolding opened_stream
opened_stream-IsClosed opened rounds = stream-IsClosed [] rounds
opened_stream-IsClosed gave_up rounds = inr ([], refl, tt)
opened_stream-IsClosed request_gone rounds = inl tt

-- How a response is shaped, for what `store.Get` has found, for whether the writer can flush, and
-- for the first attempt to open.
abbrev pub Fits : Lookup → Bool → (ℕ → Bool) → Response → Type 0
Fits lookup flusher can_open not_found = (lookup ≡ lookup_failed) ⊎ (lookup ≡ no_job)
Fits lookup flusher can_open unsupported =
    (status : JobStatus) × (lookup ≡ found_job status) × (flusher ≡ false)
Fits lookup flusher can_open (messages ms) =
    (status : JobStatus) × (lookup ≡ found_job status)
    × (flusher ≡ true)
    × IsClosed ms
    × ((can_open 0 ≡ true) ⊎ ((is_terminal status ≡ false) ⊎ (ms ≡ log_removed ∷ done ∷ [])))

answer_log-Fits :
    (status : JobStatus) (can_open : ℕ → Bool) (first ended : Bool) (followed : List Message)
    → can_open 0 ≡ first
    → is_terminal status ≡ ended
    → IsClosed followed
    → Fits (found_job status) true can_open (answer_log first ended followed)
unfolding answer_log
answer_log-Fits status can_open true ended followed f e closed = (status, refl, refl, closed, inl f)
answer_log-Fits status can_open false true followed f e closed =
    (status, refl, refl, inr (log_removed ∷ [], refl, (λ h. ground (arith, h), tt)), inr (inr refl))
answer_log-Fits status can_open false false followed f e closed =
    (status, refl, refl, closed, inr (inl e))

-- The response is 404 only when `store.Get` finds no job or fails, and 500 only when it has found
-- one and the writer cannot flush. Any other is a stream that holds at most one closing message, as
-- its last one; it is exactly the notice of the removed log and the closing message for a finished
-- job whose log cannot be opened at once.
pub stream_logs-Fits :
    (lookup : Lookup) (flusher : Bool) (can_open gone : ℕ → Bool) (rounds : List Round)
    → Fits lookup flusher can_open (stream_logs lookup flusher can_open gone rounds)
unfolding stream_logs
stream_logs-Fits lookup_failed flusher can_open gone rounds = inl refl
stream_logs-Fits no_job flusher can_open gone rounds = inr refl
stream_logs-Fits (found_job status) false can_open gone rounds = (status, refl, refl)
stream_logs-Fits (found_job status) true can_open gone rounds =
    answer_log-Fits status can_open (can_open 0) (is_terminal status) _ refl refl
      (opened_stream-IsClosed (open_log 0 can_open gone 19) rounds)
