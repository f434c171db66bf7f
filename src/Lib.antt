-- ===== src/Lib.antt =====
-- Verification of RollHook, a server that deploys Docker Compose services without downtime.
--
-- The program. A deployment is a job: `Submit` (internal/jobs/executor.go) puts its row into the table
-- of jobs (internal/db/jobs.go) and the job into a queue with one worker (internal/jobs/queue.go). The
-- worker runs the steps of internal/jobs/steps one after the other: discover the running service,
-- validate its Compose file, pull the image, roll it out, prune old images. Each step calls the Docker
-- client through internal/docker/api.go. At its end internal/notifier tells the configured channels.
-- CI pushes images to a registry behind a proxy (internal/registry), which checks short-lived tokens;
-- CI gets such a token from the API, which checks its callers (internal/middleware,
-- internal/api/auth.go). The registry is a process of its own, which internal/registry/manager.go
-- starts and starts again. The API (internal/api) takes deployments, waits for them, lists jobs and
-- streams their logs; cmd/rollhook/main.go starts and stops all of it.
--
-- The files. A module is named for the part that it models, and its child modules for what they prove;
-- a child `Tests` runs the model and applies the theorems at concrete inputs (Fixtures is the small
-- machine that they run on).
--   Prelude, Text, Effect   shared names and lemmas; Go's `strings` and `strconv` on ASCII text as a
--                           list of bytes; calls with errors, and rules on what they emit
--   Image       RepoFromRef, extractHost, isLocalhost, isOwnRegistry, shortID (internal/docker/api.go),
--               ExtractImageName, baseName (internal/jobs/steps/discover.go), extractApp
--               (internal/jobs/executor.go)
--   Docker      the calls of internal/docker/api.go; Docker.Pull is PullImage, parsePullStream and
--               internal/jobs/steps/pull.go; Docker.Prune is PruneImages and internal/jobs/steps/prune.go
--   Host        the environment, files, subprocess and clock, with envInt
--   Discover    internal/jobs/steps/discover.go
--   Validate    internal/jobs/steps/validate.go
--   EnvFile     setEnvLine and writeTempEnv of internal/jobs/steps/rollout.go
--   Rollout     the rest of internal/jobs/steps/rollout.go
--   JobQueue    internal/jobs/queue.go
--   Store       the statements of internal/db/jobs.go, and in Store.Refinement the map that they
--               implement; Store.Logs is the log files, Store.Schema is internal/db/client.go
--   Executor    internal/jobs/executor.go, with its call of the notifier in Executor.Notified
--   Registry    internal/registry/token.go, extractRepoFromPath and validateProxyAuth of
--               internal/registry/proxy.go; Registry.Proxy is NewProxy, Registry.Manager the
--               supervision (startProcess, watch), Registry.Start the rest of
--               internal/registry/manager.go, Registry.Config internal/registry/config.go
--   Auth        internal/middleware, internal/oidc/verifier.go in Auth.Verifier, checkOIDCLabels of
--               internal/api/deploy.go and the handler of internal/api/auth.go
--   Api         Api.Deploy is the rest of internal/api/deploy.go, Api.Stream is StreamLogsHandler and
--               Api.Jobs the rest of internal/api/jobs.go, with internal/api/health.go
--   Notifier    internal/notifier/notifier.go; Notifier.Otlp is internal/notifier/otlp.go
--   Main        cmd/rollhook/main.go; Main.Shutdown is the goroutine of the shutdown
--
-- The model. A step is a function of the state `W` of the outside world to a result, the list of the
-- calls and log lines in their order, and the next state. What is outside is a parameter: the Docker
-- client, files, `docker compose`, the clock, Compose and YAML and JSON decoders, base64, HMAC, the
-- sort of images, and the order in which a Go map is visited. Errors are values, one constructor for
-- each place that makes one. The queue is a step relation: a step is one critical section of its
-- mutex, one receive of the worker, or the end of one job, so every interleaving is a sequence of
-- steps; so is the supervision of the registry's process, whose steps are also those of the operating
-- system on any of the processes. The stream of a log is given what each of its reads and queries
-- finds, in rounds, one for each time that it comes to the end of the file. A row's text of a time is
-- its whole second. The table of jobs is the list of its rows; a statement that fails leaves it as it
-- is.
--
-- Bounds. The health wait of the program is a loop on the clock; the model gives it as many rounds
-- as fit into the timeout as the program computes it, in an `int64`, and two, which is enough
-- because each round sleeps a second (Rollout.Health), and so the wait for the registry with its
-- pauses of 200 ms (Registry.Start.Ready). All other loops are over lists, or have the program's
-- own count.
--
-- Not modelled: what the OIDC library asks of the provider, the decoding of requests and the routes
-- (huma, chi), what httputil.ReverseProxy does to a request (a parameter, with what its
-- documentation says), JSON, the copying of the registry's output, the text of times, the daily
-- timer of the log sweep, cmd/gendocs. Text is ASCII.
pub mod Prelude
pub mod Text
pub mod Effect
pub mod Image
pub mod Docker
pub mod Host
pub mod Discover
pub mod EnvFile
pub mod Rollout
pub mod JobQueue
pub mod Store
pub mod Validate
pub mod Executor
pub mod Registry
pub mod Auth
pub mod Api
pub mod Notifier
pub mod Main
pub mod Fixtures
