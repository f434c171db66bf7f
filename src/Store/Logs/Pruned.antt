-- ===== src/Store/Logs/Pruned.antt =====
-- Which log files are removed.
use rollhook.Prelude.{
  ℕ, ◌+◌, ◌-◌, ◌*◌, ◌^◌, ◌≤◌, ◌<◌, Bool, true, false, not, ◌&&◌, ◌||◌, Option, none, some, List, [],
  ◌∷◌, leb, if◌then◌else◌, select, length, ℤ, pos, negsuc, int64, ok, ◌≡◌, refl, ap, ◌∙◌, arith,
  Bool-cases, inl, inr, All,
}
use rollhook.Text.{codes, has_suffix}
use rollhook.Store.Logs.{
  Entry, day, entries, negated_age, is_after, is_old, is_due, prune_entries, pruned, prune_logs,
}

-- The file is a log and its time is at least so many days before now.
abbrev pub is_expired : ℕ → ℕ → Entry → Bool
is_expired now days e =
    not e.is_dir
    && has_suffix (codes ".log") e.name
    && (elim e.mod_time [ none ↦ false | some t ↦ leb (t + days * day) now ])

negated_age-small :
    (days : ℕ) → 1 ≤ days → days * day < 2 ^ 63 → negated_age days ≡ negsuc (days * day - 1)
unfolding negated_age int64
negated_age-small days ge lt = ground arith

negated_age-large :
    (days : ℕ) → 2 ^ 63 < days * day → days * day < 2 ^ 64 → (k : ℕ) × (negated_age days ≡ pos k)
unfolding negated_age int64
negated_age-large days ge lt = (2 ^ 64 - days * day, ground arith)

-- What is kept when a test tells which files are due.
abbrev pub kept : (Entry → Bool) → List Entry → List Entry
kept p es = select (λ e. not (p e && e.removable)) es

-- The answer for such a test: every entry is either removed or left.
abbrev pub Prunes : (Entry → Bool) → List Entry → ℕ × List Entry → Type 0
Prunes p es (removed, left) = (left ≡ kept p es) × (removed + length left ≡ length es)

prune_entries-Prunes :
    (p : Entry → Bool) (now : ℕ) (d : ℤ) (es : List Entry)
    → All (λ e. is_due now d e ≡ p e) es
    → Prunes p es (prune_entries now d es)
unfolding prune_entries
prune_entries-Prunes p now d [] h = (refl, omega arith)
prune_entries-Prunes p now d (e ∷ es) h =
    let (left, count) = prune_entries-Prunes p now d es h.1 in
    elim (Bool-cases (p e && e.removable)) [
      | inl x ↦ rw (h.0, x) (left, omega arith)
      | inr x ↦ rw (h.0, x) (ap (λ l. e ∷ l) left, omega arith)
    ]

is_due-is_expired :
    (now days : ℕ) (e : Entry)
    → 1 ≤ days
    → days * day < 2 ^ 63
    → is_due now (negated_age days) e ≡ is_expired now days e
unfolding is_due is_old is_after
is_due-is_expired now days e ge lt =
    ap (λ d. is_due now d e) (negated_age-small days ge lt)
    ∙ by_time e.is_dir (has_suffix (codes ".log") e.name) e.mod_time
  where
    by_time :
        (dir log : Bool) (time : Option ℕ)
        → (if dir || not log then false else is_old now (negsuc (days * day - 1)) time)
          ≡ (not dir && log && (elim time [ none ↦ false | some t ↦ leb (t + days * day) now ]))
    by_time true log time = refl
    by_time false false time = refl
    by_time false true none = refl
    by_time false true (some t) = ground arith

All-every : {P : Entry → Type 0} (es : List Entry) → ((e : Entry) → P e) → All P es
All-every [] f = tt
All-every (e ∷ es) f = (f e, All-every es f)

-- For a positive number of days whose length is below 2 ^ 63 nanoseconds, the sweep of a directory
-- removes exactly the log files that are at least so old and that can be removed; one that cannot
-- be inspected or removed does not end the sweep. The count it returns is that of the removed
-- files.
pub prune_logs-Prunes :
    (days now : ℕ) (es : List Entry)
    → 1 ≤ days
    → days * day < 2 ^ 63
    → (out : ℕ × List Entry) × (prune_logs (pos days) now (entries es) ≡ some (ok out))
      × Prunes (is_expired now days) es out
unfolding prune_logs pruned
prune_logs-Prunes days now es ge lt = (
  prune_entries now (negated_age days) es,
  ground arith,
  prune_entries-Prunes (is_expired now days) now (negated_age days) es
      (All-every es (λ e. is_due-is_expired now days e ge lt)),
)

abbrev pub is_log : Entry → Bool
is_log e = not e.is_dir && has_suffix (codes ".log") e.name

-- The time of the file is known and not in the future.
abbrev pub IsPast : ℕ → Entry → Type 0
IsPast now e = (t : ℕ) × (e.mod_time ≡ some t) × (t ≤ now)

is_due-is_log :
    (now days : ℕ) (e : Entry)
    → 2 ^ 63 < days * day
    → days * day < 2 ^ 64
    → IsPast now e
    → is_due now (negated_age days) e ≡ is_log e
unfolding is_due is_old is_after
is_due-is_log now days e ge lt (t, m, le) =
    let (k, n) = negated_age-large days ge lt in
    ap (λ d. is_due now d e) n
    ∙ ap
        (λ o.
          if e.is_dir || not (has_suffix (codes ".log") e.name)
          then false
          else is_old now (pos k) o)
        m
    ∙ by_kind k e.is_dir (has_suffix (codes ".log") e.name)
  where
    by_kind :
        (k : ℕ) (dir log : Bool)
        → (if dir || not log then false else is_old now (pos k) (some t)) ≡ (not dir && log)
    by_kind k true log = refl
    by_kind k false false = refl
    by_kind k false true = ground arith

All-past :
    (now days : ℕ) (es : List Entry)
    → 2 ^ 63 < days * day
    → days * day < 2 ^ 64
    → All (IsPast now) es
    → All (λ e. is_due now (negated_age days) e ≡ is_log e) es
All-past now days [] ge lt h = tt
All-past now days (e ∷ es) ge lt h =
    (is_due-is_log now days e ge lt h.0, All-past now days es ge lt h.1)

-- For a number of days whose length is above 2 ^ 63 and below 2 ^ 64 nanoseconds, the
-- multiplication overflows and the limit lies in the future: the sweep removes all log files,
-- however new.
pub prune_logs-overflow :
    (days now : ℕ) (es : List Entry)
    → 2 ^ 63 < days * day
    → days * day < 2 ^ 64
    → All (IsPast now) es
    → (out : ℕ × List Entry) × (prune_logs (pos days) now (entries es) ≡ some (ok out))
      × Prunes is_log es out
unfolding prune_logs pruned
prune_logs-overflow days now es ge lt past = (
  prune_entries now (negated_age days) es,
  ground arith,
  prune_entries-Prunes is_log now (negated_age days) es (All-past now days es ge lt past),
)
