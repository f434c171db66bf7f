-- ===== src/Api/Stream/Appended.antt =====
-- That the stream of a log gives back the lines that `AppendLogLine` has written.
use rollhook.Prelude.{
  ℕ, false, List, [], ◌∷◌, ◌++◌, append-nil, append_assoc, map, if◌then◌else◌, ◌≡◌, refl, sym, ap,
  ◌∙◌, arith, All, inl, inr,
}
use rollhook.Text.{Bytes, Lacks, codes, beq, trim_right, split}
use rollhook.Text.Split.{split-Lacks}
use rollhook.Store.Logs.{append_log_line}
use rollhook.Api.Stream.{
  data_line, done, Round, is_eol, newline, line_message, read_pieces, read_lines, partial_message,
  stream,
}
use rollhook.Api.Stream.Lines.{
  IsWhole, log_messages, log_messages-append, read_lines-line, all_lines, only_lines,
}
use rollhook.Api.Stream.Complete.{Follows, stream-log_messages}

-- A line with its time, as it stands in the file without the newline.
abbrev pub line_text : Bytes × Bytes → Bytes
line_text (time, line) = codes "[" ++ time ++ codes "] " ++ line

-- The file after these lines have been appended, the first one first.
abbrev pub append_lines : List (Bytes × Bytes) → Bytes → Bytes
append_lines [] log = log
append_lines ((time, line) ∷ lines) log = append_lines lines (append_log_line time line log)

-- Neither a newline nor a return.
abbrev pub IsLine : Bytes × Bytes → Type 0
IsLine entry = All (λ c. is_eol c ≡ false) (line_text entry)

trim_right-line :
    (s : Bytes) → All (λ c. is_eol c ≡ false) s → trim_right is_eol (s ++ newline ∷ []) ≡ s
unfolding trim_right
trim_right-line [] h = refl
trim_right-line (x ∷ []) h = rw h.0 refl
trim_right-line (x ∷ y ∷ s) h = rw (trim_right-line (y ∷ s) h.1) refl

eol-Lacks : (s : Bytes) → All (λ c. is_eol c ≡ false) s → Lacks newline s
eol-Lacks [] h = tt
eol-Lacks (x ∷ s) h = ((λ e. ground (arith, h.0, e)), eol-Lacks s h.1)

line_message-line :
    (c : ℕ) (s : Bytes)
    → All (λ c. is_eol c ≡ false) (c ∷ s)
    → line_message (c ∷ s) ≡ data_line (c ∷ s) ∷ []
unfolding line_message beq
line_message-line c s h =
    ap (λ t. if beq t [] then [] else data_line t ∷ []) (trim_right-line (c ∷ s) h)

log_messages-line :
    (c : ℕ) (s : Bytes)
    → All (λ c. is_eol c ≡ false) (c ∷ s)
    → log_messages ((c ∷ s) ++ newline ∷ []) ≡ data_line (c ∷ s) ∷ []
unfolding all_lines read_lines read_pieces split
log_messages-line c s h =
    let (l, r) = read_lines-line (c ∷ s) [] in
    only_lines ((c ∷ s) ++ newline ∷ []) r
    ∙ l
    ∙ append-nil (all_lines (split newline (c ∷ s)))
    ∙ ap all_lines (split-Lacks newline (c ∷ s) (eol-Lacks (c ∷ s) h))
    ∙ append-nil (line_message (c ∷ s))
    ∙ line_message-line c s h

append_log_line-text :
    (time line log : Bytes)
    → append_log_line time line log ≡ log ++ (line_text (time, line) ++ newline ∷ [])
unfolding append_log_line
append_log_line-text time line log = refl

append_log_line-IsWhole : (time line log : Bytes) → IsWhole (append_log_line time line log)
append_log_line-IsWhole time line log = inr (
  log ++ line_text (time, line),
  append_log_line-text time line log
      ∙ sym (append_assoc log (line_text (time, line)) (newline ∷ [])),
)

append_lines-messages :
    (lines : List (Bytes × Bytes)) (log : Bytes)
    → IsWhole log
    → All IsLine lines
    → log_messages (append_lines lines log)
      ≡ log_messages log ++ map (λ l. data_line (line_text l)) lines
append_lines-messages [] log whole h = sym (append-nil (log_messages log))
append_lines-messages ((time, line) ∷ lines) log whole h =
    let (read, rest) = log_messages-append log (line_text (time, line) ++ newline ∷ []) whole in
    append_lines-messages lines (append_log_line time line log)
      (append_log_line-IsWhole time line log) h.1
    ∙ ap (λ m. m ++ map (λ l. data_line (line_text l)) lines)
        (ap log_messages (append_log_line-text time line log)
          ∙ read
          ∙ ap (λ m. m ++ log_messages (line_text (time, line) ++ newline ∷ []))
              (sym (only_lines log rest))
          ∙ ap (λ m. log_messages log ++ m) (log_messages-line _ _ h.0))
    ∙ append_assoc (log_messages log) (data_line (line_text (time, line)) ∷ []) _

-- A client whose stream follows the log that `AppendLogLine` has made of some lines, in whole lines
-- up to the end of the job, gets exactly these lines with their times, in order, and then the
-- closing message. The lines have no newline and no return in them.
pub stream-append_lines :
    (rounds : List Round) (lines : List (Bytes × Bytes))
    → All IsLine lines
    → Follows [] rounds (append_lines lines [])
    → stream [] rounds ≡ map (λ l. data_line (line_text l)) lines ++ done ∷ []
unfolding read_lines read_pieces split partial_message beq
stream-append_lines rounds lines h follows =
    stream-log_messages [] rounds (append_lines lines []) follows
    ∙ ap (λ m. m ++ done ∷ []) (append_lines-messages lines [] (inl refl) h)
