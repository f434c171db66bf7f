-- ===== src/Registry/Start.antt =====
-- internal/registry/manager.go: `Start` up to the first answer of the registry, and `Stop`.
pub mod Ready
use rollhook.Prelude.{
  ℕ, zero, suc, ◌+◌, ◌/◌, Bool, true, false, ◌||◌, Option, none, some, List, [], ◌∷◌, ◌==◌, ltb,
  if◌then◌else◌,
}
use rollhook.Text.{Bytes, codes}
use rollhook.Host.{Host, env_nat}
use rollhook.Registry.Config.{
  ZotConfig, default_keep_tags, zot_password, generate_zot_config, generate_htpasswd,
}

-- How `waitUntilReady` ends; the bound on its rounds is the model's.
pub data Readiness : Type 0 where
  ready cancelled not_started rounds_exceeded : Readiness

abbrev pub ready_timeout_ms : ℕ
ready_timeout_ms = 10000

abbrev pub poll_interval_ms : ℕ
poll_interval_ms = 200

abbrev pub ready_rounds : ℕ
ready_rounds = suc (suc (ready_timeout_ms / poll_interval_ms))

-- `http.StatusOK` or `http.StatusUnauthorized`; `none` is an error of the request.
unfoldable pub is_up : Option ℕ → Bool
is_up none = false
is_up (some status) = status == 200 || status == 401

-- What `Start` is given: whether the files can be written and the process started, `bcrypt`, and
-- the request to the registry, with the status that it answers.
pub record Machine (W : Type 0) : Type 0 where
  pub host : Host W
  pub make_dir : W → Bool × W
  pub write_config : ZotConfig → W → Bool × W
  pub write_htpasswd : Bytes → W → Bool × W
  pub start_process : W → Bool × W
  pub bcrypt : Bytes → Option Bytes
  pub get : W → Option ℕ × W

pub data StartError : Type 0 where
  no_registry_dir no_config no_password no_htpasswd no_process : StartError

pub data Started : Type 0 where
  start_error : StartError → Started
  waited : Readiness → Started

module _ {W : Type 0} (m : Machine W) where
  -- The loop, with the answers of the requests, in order.
  unfoldable pub ready_loop : ℕ → ℕ → W → Readiness × List (Option ℕ) × W
  unfolding is_up
  ready_loop zero deadline w = (rounds_exceeded, [], w)
  ready_loop (suc fuel) deadline w =
      let (answer, w') = m.get w in
      let (done, w'') = m.host.sleep poll_interval_ms w' in
      let (result, answers, last) = ready_loop fuel deadline w'' in
      if ltb (m.host.clock w) deadline
      then (if is_up answer
          then (ready, answer ∷ [], w')
          else if done
          then (cancelled, answer ∷ [], w'')
          else (result, answer ∷ answers, last))
      else (not_started, [], w)

  -- `waitUntilReady`
  unfoldable pub wait_until_ready : W → Readiness × List (Option ℕ) × W
  unfolding ready_loop
  wait_until_ready w = ready_loop ready_rounds (m.host.clock w + ready_timeout_ms) w

  unfoldable pub launched : Bool × W → Started × W
  unfolding wait_until_ready
  launched (false, w) = (start_error no_process, w)
  launched (true, w) = let (result, _, w') = wait_until_ready w in (waited result, w')

  unfoldable pub with_htpasswd : Option Bytes → W → Started × W
  unfolding launched
  with_htpasswd none w = (start_error no_password, w)
  with_htpasswd (some line) w =
      let (written, w') = m.write_htpasswd line w in
      if written then launched (m.start_process w') else (start_error no_htpasswd, w')

  abbrev pub keep_tags : ℕ
  keep_tags = env_nat (m.host.getenv (codes "ROLLHOOK_REGISTRY_KEEP_TAGS")) default_keep_tags

  -- `Start`; the goroutine of `watch` is in the step relation of the supervision.
  unfoldable pub start : Bytes → Bytes → W → Started × W
  unfolding with_htpasswd
  start data_dir secret w =
      let dir = m.host.path_join data_dir (codes "registry") in
      let config =
        generate_zot_config dir (m.host.path_join dir (codes ".htpasswd")) 5000 keep_tags in
      let (made, w1) = m.make_dir w in
      let (written, w2) = m.write_config config w1 in
      if made
      then (if written
          then with_htpasswd (generate_htpasswd m.bcrypt (zot_password secret)) w2
          else (start_error no_config, w2))
      else (start_error no_registry_dir, w1)

-- What `Stop` does to the process.
pub data Signal : Type 0 where
  terminate kill await_exit : Signal

-- `Stop`, for whether there is a process, whether it can be signalled, and whether it exits within
-- `stopTimeout`.
pub stop : Bool → Bool → Bool → List Signal
stop running signalled exits_in_time =
    if running
    then (if signalled
        then (if exits_in_time
            then terminate ∷ await_exit ∷ []
            else terminate ∷ kill ∷ await_exit ∷ [])
        else terminate ∷ [])
    else []
