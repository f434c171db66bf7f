-- ===== src/Store/Logs/Tests.antt =====
-- Two log files, and the theorems at them.
use rollhook.Prelude.{
  ℕ, ◌+◌, ◌*◌, true, false, some, List, [], ◌∷◌, ok, pos, int64, ◌≡◌, refl, arith,
}
use rollhook.Text.{Bytes, codes, has_suffix, has_prefix, cut_prefix}
use rollhook.Store.Logs.{
  Entry, entries, day, prune_logs, pruned, prune_entries, is_due, is_old, is_after, negated_age,
}
use rollhook.Store.Logs.Pruned.{is_expired, is_log, Prunes, prune_logs-Prunes, prune_logs-overflow}

abbrev log_file : Bytes → ℕ → Entry
log_file name time = record { name = name; is_dir = false; mod_time = some time; removable = true }

-- A log of the first day and one of the third, seen in the fourth.
abbrev log_files : List Entry
log_files = log_file (codes "a.log") 0 ∷ log_file (codes "b.log") (2 * day + 1) ∷ []

swept :
    prune_logs (pos 2) (4 * day) (entries log_files)
    ≡ some (ok (1, log_file (codes "b.log") (2 * day + 1) ∷ []))
unfolding prune_logs pruned prune_entries is_due is_old is_after negated_age int64 has_suffix
    has_prefix cut_prefix
swept = refl

prune_logs-Prunes_example :
    (out : ℕ × List Entry) × (prune_logs (pos 2) (4 * day) (entries log_files) ≡ some (ok out))
    × Prunes (is_expired (4 * day) 2) log_files out
prune_logs-Prunes_example = prune_logs-Prunes 2 (4 * day) log_files (omega arith) (omega arith)

-- 200000 days are 5.5 centuries.
prune_logs-overflow_example :
    (out : ℕ × List Entry) × (prune_logs (pos 200000) (4 * day) (entries log_files) ≡ some (ok out))
    × Prunes is_log log_files out
prune_logs-overflow_example =
    prune_logs-overflow 200000 (4 * day) log_files (omega arith) (omega arith)
      ((0, refl, omega arith), ((2 * day + 1, refl, omega arith), tt))
