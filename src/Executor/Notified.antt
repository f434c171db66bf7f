-- ===== src/Executor/Notified.antt =====
-- internal/jobs/executor.go: the end of `run`, where `notifier.Notify` is told of the job with the
-- channels that the environment configures.
use rollhook.Prelude.{List, [], Result, ok, err}
use rollhook.Text.{Bytes, codes}
use rollhook.Effect.{Err, Event}
use rollhook.Store.{Job}
use rollhook.Notifier.{Config, Client, Note, notify}
use rollhook.Executor.{Libraries, State, run}

-- The literal of `notifier.Config` in `run`.
pub notifier_config : (Bytes → Bytes) → Config
notifier_config getenv = record {
  pushover_user_key = getenv (codes "PUSHOVER_USER_KEY");
  pushover_app_token = getenv (codes "PUSHOVER_APP_TOKEN");
  webhook_url = getenv (codes "NOTIFICATION_WEBHOOK_URL");
  slack_webhook_url = getenv (codes "SLACK_WEBHOOK_URL");
  otlp_endpoint = getenv (codes "OTEL_EXPORTER_OTLP_ENDPOINT");
  otlp_headers = getenv (codes "OTEL_EXPORTER_OTLP_HEADERS");
  deploy_environment = getenv (codes "DEPLOY_ENVIRONMENT");
}

module _ {W : Type 0} (lib : Libraries W) (client : Client W) where
  -- `Notify` on the job that `run` hands over; `run` has no other end.
  pub told : Result Err Job → State W → List Note × State W
  unfolding notifier_config
  told (ok job) s =
      let (notes, w) = notify client (notifier_config lib.host.getenv) job s.world in
      (notes, record s { world = w })
  told (err e) s = ([], s)

  -- The whole of `run`: the lines of the log, the notifications, and the state after them.
  pub run_and_notify : Bytes → Job → State W → List Event × (List Note × State W)
  unfolding told
  run_and_notify secret job s =
      let (answer, lines, s') = run lib secret job s in (lines, told answer s')
