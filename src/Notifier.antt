-- ===== src/Notifier.antt =====
-- internal/notifier: what is sent about a job that has ended, on up to four channels. The requests
-- stand for their JSON, and the HTTP client is a parameter, over the state `W` of the outside
-- world.
pub mod Otlp
pub mod Sent
pub mod Tests
use rollhook.Prelude.{
  ℕ, Bool, true, false, not, ◌&&◌, Option, none, some, List, [], ◌∷◌, ◌++◌, leb, if◌then◌else◌,
}
use rollhook.Text.{Bytes, codes, beq}
use rollhook.Store.{
  JobStatus, status_queued, status_running, status_success, status_failed, status_text, Failure,
  Job,
}
use rollhook.Notifier.Otlp.{Payload, otlp_payload, otlp_url, Headers, parse_otlp_headers}

-- `Config`
pub record Config : Type 0 where
  pub pushover_user_key : Bytes
  pub pushover_app_token : Bytes
  pub webhook_url : Bytes
  pub slack_webhook_url : Bytes
  pub otlp_endpoint : Bytes
  pub otlp_headers : Bytes
  pub deploy_environment : Bytes

pub data Channel : Type 0 where
  pushover webhook slack otlp : Channel

-- The bodies of the requests.
pub data Body : Type 0 where
  slack_text : Bytes → Body
  -- The token, the user, the title and the message.
  pushover_message : Bytes → Bytes → Bytes → Bytes → Body
  whole_job : Job → Body
  log_payload : Payload → Body

-- The headers are the calls of `Header.Set`, in order.
pub record Request : Type 0 where
  pub url : Bytes
  pub headers : Headers
  pub body : Body

-- `http.NewRequestWithContext` accepts the URL; `httpClient.Do` returns a status, or fails; the
-- text of a job's error; the clock in nanoseconds.
pub record Client (W : Type 0) : Type 0 where
  pub accepts : Bytes → Bool
  pub post : Request → W → Option ℕ × W
  pub error_text : Failure → Bytes
  pub clock : W → ℕ

-- What is seen from outside: a request that is sent, or the log line of a channel that failed.
pub data Note : Type 0 where
  sent : Request → Note
  warned : Channel → Note

abbrev pub pushover_endpoint : Bytes
pushover_endpoint = codes "https://api.pushover.net/1/messages.json"

-- The two pictures, in UTF-8.
abbrev pub check_mark : Bytes
check_mark = 226 ∷ 156 ∷ 133 ∷ []

abbrev pub cross_mark : Bytes
cross_mark = 226 ∷ 157 ∷ 140 ∷ []

abbrev pub line_feed : Bytes
line_feed = 10 ∷ []

-- `job.Status == db.StatusSuccess`
pub is_success : JobStatus → Bool
is_success status_success = true
is_success _ = false

-- `if job.Error != nil { text += "\nError: " + *job.Error }`
pub error_line : (Failure → Bytes) → Option Failure → Bytes
error_line text none = []
error_line text (some f) = line_feed ++ codes "Error: " ++ text f

pub title_of : Job → Bytes
unfolding is_success
title_of job =
    if is_success job.status
    then check_mark ++ codes " Deployed " ++ job.app
    else cross_mark ++ codes " Deployment failed: " ++ job.app

-- The text of `sendSlack`.
pub slack_message : (Failure → Bytes) → Job → Bytes
unfolding is_success error_line
slack_message text job =
    if is_success job.status
    then check_mark
      ++ codes " Deployed "
      ++ job.app
      ++ line_feed
      ++ codes "Image: "
      ++ job.image_tag
    else cross_mark
      ++ codes " Deployment failed: "
      ++ job.app
      ++ line_feed
      ++ codes "Image: "
      ++ job.image_tag
      ++ line_feed
      ++ codes "Status: "
      ++ status_text job.status
      ++ error_line text job.error

-- The message of `sendPushover`.
pub pushover_text : (Failure → Bytes) → Job → Bytes
unfolding error_line
pushover_text text job =
    codes "Image: "
    ++ job.image_tag
    ++ line_feed
    ++ codes "Status: "
    ++ status_text job.status
    ++ error_line text job.error

abbrev pub content_type : Headers
content_type = (codes "Content-Type", codes "application/json") ∷ []

pub slack_request : Bytes → (Failure → Bytes) → Job → Request
unfolding slack_message
slack_request url text job = record {
  url = url;
  headers = content_type;
  body = slack_text (slack_message text job);
}

pub pushover_request : Bytes → Bytes → (Failure → Bytes) → Job → Request
unfolding title_of pushover_text
pushover_request user_key app_token text job = record {
  url = pushover_endpoint;
  headers = content_type;
  body = pushover_message app_token user_key (title_of job) (pushover_text text job);
}

pub webhook_request : Bytes → Job → Request
webhook_request url job = record { url = url; headers = content_type; body = whole_job job }

pub otlp_request : Bytes → Bytes → Bytes → ℕ → Job → Request
unfolding is_success
otlp_request endpoint headers environment now job = record {
  url = otlp_url endpoint;
  headers = content_type ++ parse_otlp_headers headers;
  body = log_payload (otlp_payload (is_success job.status) environment now job);
}

-- `resp.StatusCode >= 300` or no response
pub is_refused : Option ℕ → Bool
is_refused none = true
is_refused (some status) = leb 300 status

module _ {W : Type 0} (client : Client W) where
  -- One channel behind its guard: `sendX`, with the warning of its error.
  pub deliver : Channel → Request → W → List Note × W
  unfolding is_refused
  deliver channel request w =
      let (answer, w') = client.post request w in
      if client.accepts request.url
      then (sent request ∷ (if is_refused answer then warned channel ∷ [] else []), w')
      else (warned channel ∷ [], w)

  pub when_set : Bool → Channel → (W → Request) → W → List Note × W
  unfolding deliver
  when_set configured channel request w =
      let notes = deliver channel (request w) w in if configured then notes else ([], w)

  -- The four channels of `Notify`, each behind its guard.
  pub to_pushover : Config → Job → W → List Note × W
  unfolding when_set
  to_pushover cfg job =
      when_set (not (beq cfg.pushover_user_key []) && not (beq cfg.pushover_app_token [])) pushover
        (λ _. pushover_request cfg.pushover_user_key cfg.pushover_app_token client.error_text job)

  pub to_webhook : Config → Job → W → List Note × W
  unfolding when_set
  to_webhook cfg job =
      when_set (not (beq cfg.webhook_url [])) webhook (λ _. webhook_request cfg.webhook_url job)

  pub to_slack : Config → Job → W → List Note × W
  unfolding when_set
  to_slack cfg job =
      when_set (not (beq cfg.slack_webhook_url [])) slack
        (λ _. slack_request cfg.slack_webhook_url client.error_text job)

  pub to_otlp : Config → Job → W → List Note × W
  unfolding when_set
  to_otlp cfg job = when_set (not (beq cfg.otlp_endpoint [])) otlp (λ w.
      otlp_request cfg.otlp_endpoint cfg.otlp_headers cfg.deploy_environment (client.clock w) job)

  -- `Notify`
  pub notify : Config → Job → W → List Note × W
  unfolding to_pushover to_webhook to_slack to_otlp
  notify cfg job w =
      let (a, w1) = to_pushover cfg job w in
      let (b, w2) = to_webhook cfg job w1 in
      let (c, w3) = to_slack cfg job w2 in
      let (d, w4) = to_otlp cfg job w3 in (a ++ (b ++ (c ++ d)), w4)
