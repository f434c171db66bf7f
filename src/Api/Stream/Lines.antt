-- ===== src/Api/Stream/Lines.antt =====
-- The messages that the reads of a log make, and the lines of its text.
use rollhook.Prelude.{
  true, false, List, [], ◌∷◌, ◌++◌, append-nil, append_assoc, ◌≡◌, ◌≢◌, refl, sym, ap, ◌∙◌, subst,
  ◌⊎◌, inl, inr, map, map-append, Bool, Bool-cases, if◌then◌else◌,
}
use rollhook.Text.{trim_right, beq, Bytes, Lacks, split}
use rollhook.Text.Split.{split-append, split-Lacks, split-ne-nil}
use rollhook.Api.Stream.{
  Message, data_line, is_eol, newline, line_message, read_pieces, read_lines, partial_message,
}

-- The messages of the lines of a text: one for each line, complete or not, that is not empty.
abbrev pub log_messages : Bytes → List Message
log_messages log = let (ms, line) = read_lines log in ms ++ partial_message line

read_pieces-append :
    (ps : List Bytes) (qs : List Bytes) → qs ≢ [] → (read_pieces (ps ++ qs)).1 ≡ (read_pieces qs).1
unfolding read_pieces
read_pieces-append [] qs ne = refl
read_pieces-append (p ∷ []) [] ne = absurd (ne refl)
read_pieces-append (p ∷ []) (q ∷ qs) ne = refl
read_pieces-append (p ∷ p' ∷ ps) qs ne = read_pieces-append (p' ∷ ps) qs ne

-- The messages of complete lines only: a text that ends with a newline leaves no rest.
unfoldable pub all_lines : List Bytes → List Message
all_lines [] = []
all_lines (p ∷ ps) = line_message p ++ all_lines ps

read_pieces-all_lines :
    (ps qs : List Bytes) → qs ≢ [] → (read_pieces (ps ++ qs)).0 ≡ all_lines ps ++ (read_pieces qs).0
unfolding read_pieces all_lines
read_pieces-all_lines [] qs ne = refl
read_pieces-all_lines (p ∷ []) [] ne = absurd (ne refl)
read_pieces-all_lines (p ∷ []) (q ∷ qs) ne =
    ap (λ l. l ++ (read_pieces (q ∷ qs)).0) (sym (append-nil (line_message p)))
read_pieces-all_lines (p ∷ p' ∷ ps) qs ne =
    ap (λ l. line_message p ++ l) (read_pieces-all_lines (p' ∷ ps) qs ne)
    ∙ sym (append_assoc (line_message p) (line_message p' ++ all_lines ps) (read_pieces qs).0)

pub read_lines-line :
    (a b : Bytes)
    → ((read_lines (a ++ newline ∷ b)).0 ≡ all_lines (split newline a) ++ (read_lines b).0)
      × ((read_lines (a ++ newline ∷ b)).1 ≡ (read_lines b).1)
unfolding read_lines
read_lines-line a b = (
  ap (λ ps. (read_pieces ps).0) (split-append newline a b)
      ∙ read_pieces-all_lines (split newline a) (split newline b) (split-ne-nil newline b),
  ap (λ ps. (read_pieces ps).1) (split-append newline a b)
      ∙ read_pieces-append (split newline a) (split newline b) (split-ne-nil newline b),
)

read_lines-nil : read_lines [] ≡ ([], [])
unfolding read_lines read_pieces split
read_lines-nil = refl

read_lines-Lacks : (p : Bytes) → Lacks newline p → read_lines p ≡ ([], p)
unfolding read_lines read_pieces
read_lines-Lacks p h = ap read_pieces (split-Lacks newline p h)

-- The text is empty or ends with a newline.
abbrev pub IsWhole : Bytes → Type 0
IsWhole log = (log ≡ []) ⊎ ((a : Bytes) × (log ≡ a ++ newline ∷ []))

line-append :
    (a rest : Bytes)
    → (log_messages ((a ++ newline ∷ []) ++ rest)
        ≡ (read_lines (a ++ newline ∷ [])).0 ++ log_messages rest)
      × ((read_lines (a ++ newline ∷ [])).1 ≡ [])
line-append a rest =
    let (l, r) = read_lines-line a rest in
    let (l', r') = read_lines-line a [] in
    let front =
      l'
      ∙ ap (λ x. all_lines (split newline a) ++ x.0) read_lines-nil
      ∙ append-nil (all_lines (split newline a)) in
    (
      ap log_messages (append_assoc a (newline ∷ []) rest)
          ∙ ap (λ x. x ++ partial_message (read_lines (a ++ newline ∷ rest)).1) l
          ∙ ap (λ x. (all_lines (split newline a) ++ (read_lines rest).0) ++ partial_message x) r
          ∙ append_assoc (all_lines (split newline a)) (read_lines rest).0
              (partial_message (read_lines rest).1)
          ∙ ap (λ x. x ++ log_messages rest) (sym front),
      r' ∙ ap (λ x. x.1) read_lines-nil,
    )

-- What is read up to the end of a line and what is read behind it are read as one text.
pub log_messages-append :
    (log rest : Bytes)
    → IsWhole log
    → (log_messages (log ++ rest) ≡ (read_lines log).0 ++ log_messages rest)
      × ((read_lines log).1 ≡ [])
log_messages-append log rest (inl e) =
    subst
      (λ x.
        (log_messages (x ++ rest) ≡ (read_lines x).0 ++ log_messages rest)
        × ((read_lines x).1 ≡ []))
      (sym e)
      (ap (λ x. x.0 ++ log_messages rest) (sym read_lines-nil), ap (λ x. x.1) read_lines-nil)
log_messages-append log rest (inr (a, e)) =
    subst
      (λ x.
        (log_messages (x ++ rest) ≡ (read_lines x).0 ++ log_messages rest)
        × ((read_lines x).1 ≡ []))
      (sym e) (line-append a rest)

pub only_lines : (log : Bytes) → (read_lines log).1 ≡ [] → log_messages log ≡ (read_lines log).0
unfolding partial_message read_lines beq
only_lines log n =
    ap (λ x. (read_lines log).0 ++ partial_message x) n ∙ append-nil (read_lines log).0

-- The lines of a text as a reader of the log sees them: each line without the returns at its end,
-- and the text behind the last newline.
abbrev pub shown : List Bytes → List Bytes
shown [] = []
shown (p ∷ []) = if beq p [] then [] else trim_right is_eol p ∷ []
shown (p ∷ q ∷ ps) =
    (if beq (trim_right is_eol p) [] then [] else trim_right is_eol p ∷ []) ++ shown (q ∷ ps)

-- One message for each line that is not empty.
abbrev pub text_messages : Bytes → List Message
text_messages log = map data_line (shown (split newline log))

trim_right-newline : (s : Bytes) → trim_right is_eol (s ++ newline ∷ []) ≡ trim_right is_eol s
unfolding trim_right
trim_right-newline [] = refl
trim_right-newline (x ∷ s) =
    ap (λ t. elim t [ [] ↦ if is_eol x then [] else x ∷ [] | y ∷ r ↦ x ∷ y ∷ r ])
      (trim_right-newline s)

line_message-shown :
    (p : Bytes)
    → line_message p
      ≡ map data_line (if beq (trim_right is_eol p) [] then [] else trim_right is_eol p ∷ [])
unfolding line_message
line_message-shown p =
    ap (λ t. if beq t [] then [] else data_line t ∷ []) (trim_right-newline p)
    ∙ under (beq (trim_right is_eol p) [])
  where
    under :
        (b : Bool)
        → Path
            (List Message)
            (if b then [] else data_line (trim_right is_eol p) ∷ [])
            (map data_line (if b then [] else trim_right is_eol p ∷ []))
    under true = refl
    under false = refl

partial_message-shown : (p : Bytes) → partial_message p ≡ map data_line (shown (p ∷ []))
unfolding partial_message
partial_message-shown p = elim (Bool-cases (beq p [])) [ inl e ↦ rw e refl | inr e ↦ rw e refl ]

read_pieces-shown :
    (ps : List Bytes)
    → (read_pieces ps).0 ++ partial_message (read_pieces ps).1 ≡ map data_line (shown ps)
unfolding read_pieces partial_message beq
read_pieces-shown [] = refl
read_pieces-shown (p ∷ []) = partial_message-shown p
read_pieces-shown (p ∷ q ∷ ps) =
    append_assoc (line_message p) (read_pieces (q ∷ ps)).0
      (partial_message (read_pieces (q ∷ ps)).1)
    ∙ ap (λ l. l ++ ((read_pieces (q ∷ ps)).0 ++ partial_message (read_pieces (q ∷ ps)).1))
        (line_message-shown p)
    ∙ ap
        (λ l.
          map data_line (if beq (trim_right is_eol p) [] then [] else trim_right is_eol p ∷ [])
          ++ l)
        (read_pieces-shown (q ∷ ps))
    ∙ sym (
        map-append data_line (if beq (trim_right is_eol p) [] then [] else trim_right is_eol p ∷ [])
          (shown (q ∷ ps)))

pub log_messages-text : (log : Bytes) → log_messages log ≡ text_messages log
unfolding read_lines
log_messages-text log = read_pieces-shown (split newline log)
