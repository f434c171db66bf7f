-- ===== src/Store/Logs.antt =====
-- internal/db/jobs.go: the log files of jobs, what is appended to them and `PruneLogs`, the reaper
-- of old ones. Times are in nanoseconds, and a `time.Duration` is an `int64`.
pub mod Pruned
pub mod Tests
use rollhook.Prelude.{
  ℕ, zero, suc, ◌+◌, ◌-◌, ◌*◌, ◌%◌, ◌^◌, Bool, true, false, not, ◌&&◌, ◌||◌, Option, none, some,
  List, [], ◌∷◌, ◌++◌, leb, ltb, if◌then◌else◌, ℤ, pos, negsuc, int64, Result, ok, err,
}
use rollhook.Text.{Bytes, codes, beq, has_suffix}

abbrev pub day : ℕ
day = 86400000000000

-- A directory entry: whether it is a directory, what `entry.Info` says of its time (`none` is an
-- error), and whether `os.Remove` succeeds.
pub record Entry : Type 0 where
  pub name : Bytes
  pub is_dir : Bool
  pub mod_time : Option ℕ
  pub removable : Bool

-- `os.ReadDir`, with `os.IsNotExist` told apart.
pub data DirRead : Type 0 where
  entries : List Entry → DirRead
  dir_missing dir_unreadable : DirRead

-- `-time.Duration(maxAgeDays) * 24 * time.Hour`
pub negated_age : ℕ → ℤ
negated_age days = int64 (2 ^ 64 - days * day % 2 ^ 64)

-- `info.ModTime().After(time.Now().Add(d))`
pub is_after : ℕ → ℕ → ℤ → Bool
is_after mod_time now (pos d) = ltb (now + d) mod_time
is_after mod_time now (negsuc d) = ltb now (mod_time + suc d)

-- The time of an entry that cannot be inspected does not count.
pub is_old : ℕ → ℤ → Option ℕ → Bool
unfolding is_after
is_old now d none = false
is_old now d (some t) = not (is_after t now d)

-- The guards of the loop's body: is `os.Remove` called?
pub is_due : ℕ → ℤ → Entry → Bool
unfolding is_old
is_due now d e =
    if e.is_dir || not (has_suffix (codes ".log") e.name) then false else is_old now d e.mod_time

-- The loop: how many are removed, and what is left in the directory.
pub prune_entries : ℕ → ℤ → List Entry → ℕ × List Entry
unfolding is_due
prune_entries now d [] = (0, [])
prune_entries now d (e ∷ es) =
    let (removed, left) = prune_entries now d es in
    if is_due now d e && e.removable then (suc removed, left) else (removed, e ∷ left)

pub pruned : ℕ → ℤ → DirRead → Result (Unit {0}) (ℕ × List Entry)
unfolding prune_entries
pruned now d (entries es) = ok (prune_entries now d es)
pruned now d dir_missing = ok (0, [])
pruned now d dir_unreadable = err tt

-- `PruneLogs` at the time `now`; `none` is that the directory is not read.
pub prune_logs : ℤ → ℕ → DirRead → Option (Result (Unit {0}) (ℕ × List Entry))
unfolding pruned negated_age
prune_logs (negsuc _) now dir = none
prune_logs (pos days) now dir =
    if leb days 0 then none else some (pruned now (negated_age days) dir)

-- `LogPath`, with `filepath.Join`.
pub log_path : (Bytes → Bytes → Bytes) → Bytes → Bytes → Bytes
log_path join data_dir job_id = join (join data_dir (codes "logs")) (job_id ++ codes ".log")

-- `AppendLogLine` at a time that is printed as RFC 3339, on the text of the file: one write, of one
-- line.
unfoldable pub append_log_line : Bytes → Bytes → Bytes → Bytes
append_log_line time line log = log ++ (codes "[" ++ time ++ codes "] " ++ line ++ 10 ∷ [])

-- `AppendLog`: a file that is not there is created; `none` is that it cannot be opened.
pub append_log : Bool → Bytes → Bytes → Option Bytes → Option Bytes
unfolding append_log_line
append_log opens time line file =
    if opens
    then some (append_log_line time line (elim file [ none ↦ [] | some log ↦ log ]))
    else file
