-- ===== src/EnvFile.antt =====
-- `setEnvLine` and `writeTempEnv` of internal/jobs/steps/rollout.go: the job's env file, which is
-- the user's `.env` with `IMAGE_TAG` set.
pub mod Lines
pub mod Merge
pub mod Tests
use rollhook.Prelude.{
  ℕ, zero, suc, Bool, true, false, Option, none, some, List, [], ◌∷◌, ◌++◌, Result, ok, err,
  if◌then◌else◌,
}
use rollhook.Text.{Bytes, codes, beq, has_prefix, has_suffix, split, join}
use rollhook.Effect.{
  Io, Err, reading_env, creating_env, writing_env, env_file_written, env_file_removed,
}
use rollhook.Host.{Host, FileRead, content, missing, unreadable}

abbrev pub newline : ℕ
newline = 10

-- `key + "="`
abbrev pub key_prefix : Bytes → Bytes
key_prefix key = key ++ b'=' ∷ []

-- The loop that finds the last line with the prefix.
pub last_line : Bytes → List Bytes → Option ℕ
last_line prefix [] = none
last_line prefix (l ∷ ls) = elim (last_line prefix ls) [
  | some i ↦ some (suc i)
  | none ↦ if has_prefix prefix l then some 0 else none
]

-- `lines[i] = line`
pub set_line : List Bytes → ℕ → Bytes → List Bytes
set_line [] i line = []
set_line (l ∷ ls) zero line = line ∷ ls
set_line (l ∷ ls) (suc i) line = l ∷ set_line ls i line

-- The new line behind the text, with the text's convention on the last newline.
append_line : Bytes → Bytes → Bytes
append_line text line =
    if beq text []
    then line
    else if has_suffix (newline ∷ []) text
    then text ++ (line ++ newline ∷ [])
    else text ++ newline ∷ line

pub set_env_line : Bytes → Bytes → Bytes → Bytes
unfolding append_line
set_env_line text key value =
    let line = key_prefix key ++ value in
    elim (last_line (key_prefix key) (split newline text)) [
      | some i ↦ join newline (set_line (split newline text) i line)
      | none ↦ append_line text line
    ]

abbrev pub image_tag_key : Bytes
image_tag_key = codes "IMAGE_TAG"

module _ {W : Type 0} (host : Host W) where
  -- A temp file that cannot be written is removed again.
  write_to : Bytes → Option Bytes → Io W Bytes
  write_to merged none w = (err creating_env, [], w)
  write_to merged (some name) w =
      let (written, w') = host.write_file name merged w in
      let (_, w'') = host.remove_file name w' in
      if written
      then (ok name, env_file_written merged ∷ [], w')
      else (err writing_env, env_file_removed ∷ [], w'')

  write_merged : Bytes → Io W Bytes
  unfolding write_to
  write_merged merged w = let (name, w') = host.create_temp w in write_to merged name w'

  merge : Bytes → FileRead → Io W Bytes
  unfolding write_merged
  merge image_tag (content text) w = write_merged (set_env_line text image_tag_key image_tag) w
  merge image_tag missing w = write_merged (set_env_line [] image_tag_key image_tag) w
  merge image_tag unreadable w = (err reading_env, [], w)

  -- `dot_env` is the path of the user's `.env`.
  unfoldable pub write_temp_env : Bytes → Bytes → Io W Bytes
  unfolding merge
  write_temp_env dot_env image_tag w =
      let (read, w') = host.read_file dot_env w in merge image_tag read w'
