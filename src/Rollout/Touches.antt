-- ===== src/Rollout/Touches.antt =====
-- Which containers a rollout stops or removes.
use rollhook.Prelude.{◌+◌, ℕ, List, [], ◌∷◌, Result, ok, err, ℤ, All}
use rollhook.Text.{Bytes}
use rollhook.Effect.{Err, Event, stopped, removed, Line, Context, background}
use rollhook.Effect.Emits.{
  Emits, Emits-pure, Emits-fail, Emits-log, Emits-then, Emits-mono, Emits-attempt, Emits-call,
}
use rollhook.Docker.{Docker, stop_container, remove_container}
use rollhook.Host.{Host}
use rollhook.Rollout.{log_error, rollback_each, rollback_containers, or_roll_back, wait_all}
use rollhook.Rollout.Quiet.{IsQuiet, wait_healthy-IsQuiet, log_error-IsQuiet}

-- A predicate of all quiet events, and of both ends of the containers of a list.
pub record Allows (P : Event → Type 0) (ids : List Bytes) : Type 0 where
  pub quiet : (e : Event) → IsQuiet e → P e
  pub ends : All (λ id. (c : Context) → P (stopped c id) × P (removed c id)) ids

module _ {W : Type 0} (cli : Docker W) (host : Host W) {P : Event → Type 0} where
  pub ends-Emits :
      (c : Context) (id : Bytes)
      → (P (stopped c id) × P (removed c id))
      → Emits P (stop_container cli c id) × Emits P (remove_container cli c id)
  unfolding stop_container remove_container
  ends-Emits c id h = (Emits-call _ _ _ h.0, Emits-call _ _ _ h.1)

  pub log_error-Emits :
      ((e : Event) → IsQuiet e → P e)
      → (f : Err → Line) (r : Result Err (Unit {0})) → Emits P (log_error cli host f r)
  log_error-Emits q f r = Emits-mono _ q (log_error-IsQuiet cli host f r)

  pub rollback_each-Emits :
      (q : (e : Event) → IsQuiet e → P e) (ids : List Bytes)
      → All (λ id. (c : Context) → P (stopped c id) × P (removed c id)) ids
      → Emits P (rollback_each cli host ids)
  unfolding rollback_each
  rollback_each-Emits q [] h = Emits-pure _
  rollback_each-Emits q (id ∷ ids) h =
      let (s, r) = ends-Emits background id (h.0 background) in
      Emits-then _ _ (Emits-log _ (q _ tt)) λ _. Emits-then _ _ (Emits-attempt _ s) λ a.
        Emits-then _ _ (log_error-Emits q _ a) λ _.
          Emits-then _ _ (Emits-attempt _ r)
            λ b. Emits-then _ _ (log_error-Emits q _ b) λ _. rollback_each-Emits q ids h.1

  pub rollback_containers-Emits :
      (ids : List Bytes) (e : Err) → Allows P ids → Emits P (rollback_containers cli host ids e)
  unfolding rollback_containers
  rollback_containers-Emits ids e h =
      Emits-then _ _ (Emits-log _ (h.quiet _ tt)) λ _. rollback_each-Emits h.quiet ids h.ends

  pub or_roll_back-Emits :
      (ids : List Bytes) (r : Result Err (Unit {0}))
      → Allows P ids
      → Emits P (or_roll_back cli host ids r)
  unfolding or_roll_back
  or_roll_back-Emits ids (ok _) h = Emits-pure _
  or_roll_back-Emits ids (err e) h =
      Emits-then _ _ (rollback_containers-Emits ids e h) λ _. Emits-fail _

  pub wait_all-Emits :
      (timeout : ℤ) (new_ids : List Bytes) (i : ℕ) (ids : List Bytes)
      → Allows P new_ids
      → Emits P (wait_all cli host timeout new_ids i ids)
  unfolding wait_all
  wait_all-Emits timeout new_ids i [] h = Emits-pure _
  wait_all-Emits timeout new_ids i (id ∷ ids) h = Emits-then _ _ (Emits-log _ (h.quiet _ tt)) λ _.
      Emits-then _ _
        (Emits-attempt _ (Emits-mono _ h.quiet (wait_healthy-IsQuiet cli host id timeout)))
        λ a.
          Emits-then _ _ (or_roll_back-Emits new_ids a h)
            λ _. wait_all-Emits timeout new_ids (i + 1) ids h
