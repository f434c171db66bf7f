-- ===== src/Notifier/Sent.antt =====
-- What `Notify` sends, whatever fails.
use rollhook.Prelude.{
  ℕ, Bool, true, false, not, ◌&&◌, List, [], ◌∷◌, ◌++◌, if◌then◌else◌, ◌≡◌, ◌≢◌, arith, refl, ap,
  ◌∙◌, Bool-cases, inl, inr,
}
use rollhook.Text.{Bytes, beq}
use rollhook.Text.Equality.{beq-cases}
use rollhook.Notifier.Otlp.{otlp_url}
use rollhook.Store.{Failure, Job}
use rollhook.Notifier.{
  pushover_endpoint, Config, Channel, pushover, webhook, slack, otlp, Request, Client, Note, sent,
  warned, pushover_request, webhook_request, slack_request, otlp_request, is_refused, deliver,
  when_set, to_pushover, to_webhook, to_slack, to_otlp, notify,
}

-- The requests that were sent.
abbrev pub requests : List Note → List Request
requests [] = []
requests (sent r ∷ notes) = r ∷ requests notes
requests (warned c ∷ notes) = requests notes

requests-++ : (xs ys : List Note) → requests (xs ++ ys) ≡ requests xs ++ requests ys
requests-++ [] ys = refl
requests-++ (sent r ∷ xs) ys = ap (λ l. r ∷ l) (requests-++ xs ys)
requests-++ (warned c ∷ xs) ys = requests-++ xs ys

requests-join :
    (xs ys : List Note) {rs qs : List Request}
    → requests xs ≡ rs
    → requests ys ≡ qs
    → requests (xs ++ ys) ≡ rs ++ qs
requests-join xs ys {rs = rs} e f =
    requests-++ xs ys ∙ ap (λ l. l ++ requests ys) e ∙ ap (λ l. rs ++ l) f

abbrev pub only : Bool → Request → List Request
only configured r = if configured then r ∷ [] else []

-- The requests of the channels that are configured, in order, with the time of the log record.
abbrev pub wanted : (Failure → Bytes) → Config → Job → ℕ → List Request
wanted text cfg job now =
    only (not (beq cfg.pushover_user_key []) && not (beq cfg.pushover_app_token []))
      (pushover_request cfg.pushover_user_key cfg.pushover_app_token text job)
    ++ (only (not (beq cfg.webhook_url [])) (webhook_request cfg.webhook_url job)
        ++ (only (not (beq cfg.slack_webhook_url [])) (slack_request cfg.slack_webhook_url text job)
            ++ only (not (beq cfg.otlp_endpoint []))
                (otlp_request cfg.otlp_endpoint cfg.otlp_headers cfg.deploy_environment now job)))

-- The URLs of the configured channels are accepted.
pub record IsAccepted {W : Type 0} (client : Client W) (cfg : Config) : Type 0 where
  pub by_pushover : client.accepts pushover_endpoint ≡ true
  pub by_webhook : cfg.webhook_url ≢ [] → client.accepts cfg.webhook_url ≡ true
  pub by_slack : cfg.slack_webhook_url ≢ [] → client.accepts cfg.slack_webhook_url ≡ true
  pub by_otlp : cfg.otlp_endpoint ≢ [] → client.accepts (otlp_url cfg.otlp_endpoint) ≡ true

set-ne-nil : (s : Bytes) → not (beq s []) ≡ true → s ≢ []
set-ne-nil s h e = elim (beq-cases s []) [ inl (b, _) ↦ ground (arith, h, b) | inr (_, ne) ↦ ne e ]

module _ {W : Type 0} (client : Client W) where
  deliver-requests :
      (channel : Channel) (request : Request) (w : W)
      → client.accepts request.url ≡ true
      → requests (deliver client channel request w).0 ≡ request ∷ []
  unfolding deliver
  deliver-requests channel request w accepts =
      elim (Bool-cases (is_refused (client.post request w).0)) [
        | inl e ↦ rw (accepts, e) refl
        | inr e ↦ rw (accepts, e) refl
      ]

  when_set-requests :
      (configured : Bool) (channel : Channel) (request : W → Request) (w : W)
      → (configured ≡ true → client.accepts (request w).url ≡ true)
      → requests (when_set client configured channel request w).0 ≡ only configured (request w)
  unfolding when_set
  when_set-requests true channel request w accepts =
      deliver-requests channel (request w) w (accepts refl)
  when_set-requests false channel request w accepts = refl

  to_pushover-requests :
      (cfg : Config) (job : Job) (w : W)
      → IsAccepted client cfg
      → requests (to_pushover client cfg job w).0
        ≡ only
            (not (beq cfg.pushover_user_key []) && not (beq cfg.pushover_app_token []))
            (pushover_request cfg.pushover_user_key cfg.pushover_app_token client.error_text job)
  unfolding to_pushover pushover_request
  to_pushover-requests cfg job w ok_urls =
      when_set-requests (not (beq cfg.pushover_user_key []) && not (beq cfg.pushover_app_token []))
        pushover
        (λ _. pushover_request cfg.pushover_user_key cfg.pushover_app_token client.error_text job) w
        (λ _. ok_urls.by_pushover)

  to_webhook-requests :
      (cfg : Config) (job : Job) (w : W)
      → IsAccepted client cfg
      → requests (to_webhook client cfg job w).0
        ≡ only (not (beq cfg.webhook_url [])) (webhook_request cfg.webhook_url job)
  unfolding to_webhook webhook_request
  to_webhook-requests cfg job w ok_urls =
      when_set-requests (not (beq cfg.webhook_url [])) webhook
        (λ _. webhook_request cfg.webhook_url job) w (λ h. ok_urls.by_webhook (set-ne-nil _ h))

  to_slack-requests :
      (cfg : Config) (job : Job) (w : W)
      → IsAccepted client cfg
      → requests (to_slack client cfg job w).0
        ≡ only
            (not (beq cfg.slack_webhook_url []))
            (slack_request cfg.slack_webhook_url client.error_text job)
  unfolding to_slack slack_request
  to_slack-requests cfg job w ok_urls =
      when_set-requests (not (beq cfg.slack_webhook_url [])) slack
        (λ _. slack_request cfg.slack_webhook_url client.error_text job) w
        (λ h. ok_urls.by_slack (set-ne-nil _ h))

  to_otlp-requests :
      (cfg : Config) (job : Job) (w : W)
      → IsAccepted client cfg
      → requests (to_otlp client cfg job w).0
        ≡ only (not (beq cfg.otlp_endpoint [])) (
            otlp_request cfg.otlp_endpoint cfg.otlp_headers cfg.deploy_environment
              (client.clock w)
              job)
  unfolding to_otlp otlp_request
  to_otlp-requests cfg job w ok_urls =
      when_set-requests (not (beq cfg.otlp_endpoint [])) otlp
        (λ v.
          otlp_request cfg.otlp_endpoint cfg.otlp_headers cfg.deploy_environment (client.clock v)
            job)
        w (λ h. ok_urls.by_otlp (set-ne-nil _ h))

  -- Where the URLs of the configured channels are accepted, `Notify` sends exactly one request on
  -- each channel that is configured, in the order Pushover, webhook, Slack, log collector, whatever
  -- the earlier ones were answered.
  pub notify-requests :
      (cfg : Config) (job : Job) (w : W)
      → IsAccepted client cfg
      → (now : ℕ) × (requests (notify client cfg job w).0 ≡ wanted client.error_text cfg job now)
  unfolding notify
  notify-requests cfg job w accepts =
      let w1 = (to_pushover client cfg job w).1 in
      let w2 = (to_webhook client cfg job w1).1 in
      let w3 = (to_slack client cfg job w2).1 in
      (
        client.clock w3,
        requests-join (to_pushover client cfg job w).0 _ (to_pushover-requests cfg job w accepts) (
            requests-join (to_webhook client cfg job w1).0 _
              (to_webhook-requests cfg job w1 accepts)
              (requests-join (to_slack client cfg job w2).0 (to_otlp client cfg job w3).0
                (to_slack-requests cfg job w2 accepts) (to_otlp-requests cfg job w3 accepts))),
      )
