-- ===== src/Host.antt =====
-- The operating system below the program: environment variables, files, the Compose subprocess and
-- the clock. These are parameters, over the state of the outside world.
use rollhook.Prelude.{
  ℕ, Bool, Option, none, some, List, [], ◌∷◌, ok, err, if◌then◌else◌, ℤ, pos, negsuc,
}
use rollhook.Text.{Bytes, beq}
use rollhook.Text.Number.{parse_int}
use rollhook.Effect.{Io, context_done, paused}

-- `os.ReadFile`, with `os.IsNotExist` told apart.
pub data FileRead : Type 0 where
  content : Bytes → FileRead
  missing unreadable : FileRead

pub record Host (W : Type 0) : Type 0 where
  pub getenv : Bytes → Bytes
  pub read_file : Bytes → W → FileRead × W
  -- `filepath.Dir`, `filepath.Join` and `filepath.IsAbs`.
  pub path_dir : Bytes → Bytes
  pub path_join : Bytes → Bytes → Bytes
  pub is_abs : Bytes → Bool
  -- `os.CreateTemp` with the name of the new file, `f.WriteString`, `os.Remove`.
  pub create_temp : W → Option Bytes × W
  pub write_file : Bytes → Bytes → W → Bool × W
  pub remove_file : Bytes → W → Bool × W
  -- `docker compose`: the working directory, the Compose file, the env file, the service and its
  -- scale. On a failure it returns the output.
  pub compose_up : Bytes → Bytes → Bytes → Bytes → ℕ → W → Option Bytes × W
  -- The order in which `range` visits the keys of a map.
  pub range_order : List Bytes → List Bytes
  -- `time.Now()` in milliseconds.
  pub clock : W → ℕ
  -- `select { case <-ctx.Done(): … case <-time.After(ms): }`: `true` is the first case.
  pub sleep : ℕ → W → Bool × W

-- `envInt` of internal/jobs/steps/rollout.go: the default for an unset or unparseable variable.
unfoldable pub env_int : Bytes → ℤ → ℤ
env_int v default_val =
    if beq v [] then default_val else elim (parse_int v) [ none ↦ default_val | some n ↦ n ]

-- `envInt` of internal/registry/manager.go and of cmd/rollhook/main.go: a negative value is also a
-- mistake.
unfoldable pub env_nat : Bytes → ℕ → ℕ
env_nat v default_val = if beq v [] then default_val else elim (parse_int v) [
  | none ↦ default_val
  | some n ↦ elim n [ pos k ↦ k | negsuc _ ↦ default_val ]
]

module _ {W : Type 0} (host : Host W) where
  unfoldable pub now : Io W ℕ
  now w = (ok (host.clock w), [], w)

  unfoldable pub pause : ℕ → Io W (Unit {0})
  pause ms w =
      let (done, w') = host.sleep ms w in
      (if done then err context_done else ok tt, paused ms ∷ [], w')
