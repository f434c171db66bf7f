-- ===== src/Docker/Prune.antt =====
-- `PruneImages` of internal/docker/api.go with its helpers, and `Prune` of
-- internal/jobs/steps/prune.go. `sort` is `sort.Slice` by falling creation time, which may put
-- images of the same time in any order.
pub mod Chosen
pub mod Kept
pub mod Tests
use rollhook.Prelude.{
  ℕ, suc, ◌+◌, Bool, true, false, not, ◌||◌, List, [], ◌∷◌, Result, ok, err, ℤ, pos, negsuc, ltb,
  ◌==◌, select, if◌then◌else◌,
}
use rollhook.Text.{Bytes, codes, beq}
use rollhook.Image.{repo_from_ref, short_id}
use rollhook.Effect.{
  Io, Fault, not_found, conflict, Err, listing_images, listing_for_prune, Event, listed_images,
  listed_containers, image_removed, logged, pruned, prune_skipped, prune_warning, pure, call,
  attempt, log, ◌>>=◌, ◌>>◌,
}
use rollhook.Docker.{Docker, Summary, ImageSummary}

pub has_tag : Bytes → List Bytes → Bool
has_tag tag [] = false
has_tag tag (t ∷ tags) = beq t tag || has_tag tag tags

pub image_label : ImageSummary → Bytes
image_label img = elim img.repo_tags [ [] ↦ short_id img.id | t ∷ _ ↦ t ]

-- Is the image in the set of `inUseImageIDs`?
pub in_use : List Summary → Bytes → Bool
in_use [] id = false
in_use (c ∷ cs) id = beq c.image_id id || in_use cs id

module _ {W : Type 0} (cli : Docker W) (sort : List ImageSummary → List ImageSummary) where
  pub outcome : Bytes → Result Fault (Unit {0}) → Io W (Unit {0})
  outcome label (ok _) = log (pruned label)
  outcome label (err not_found) = log (prune_skipped label not_found)
  outcome label (err conflict) = log (prune_skipped label conflict)
  outcome label (err f) = log (prune_warning label f)

  pub remove_image : ImageSummary → Io W (Unit {0})
  unfolding outcome
  remove_image img = do
    r ← λ w. let (r, w') = cli.image_remove img.id w in (ok r, image_removed img.id ∷ [], w')
    outcome (image_label img) r

  -- The last loop, from index `i`.
  pub prune_from : ℕ → ℕ → Bytes → List ImageSummary → Io W (Unit {0})
  unfolding remove_image
  prune_from i keep tag [] = pure tt
  prune_from i keep tag (img ∷ images) = do
    if ltb i keep || has_tag tag img.repo_tags then pure tt else remove_image img
    prune_from (suc i) keep tag images

  pub list_images : Bytes → Io W (List ImageSummary)
  list_images repo =
      call (listed_images ((codes "reference", repo) ∷ []))
        (cli.image_list ((codes "reference", repo) ∷ [])) (listing_images repo)

  pub list_all_containers : Io W (List Summary)
  list_all_containers =
      call (listed_containers true []) (cli.container_list true []) listing_for_prune

  pub candidates : List Summary → List ImageSummary → List ImageSummary
  candidates containers images = sort (select (λ img. not (in_use containers img.id)) images)

  pub prune_repo : ℕ → Bytes → Bytes → Io W (Unit {0})
  unfolding prune_from list_images list_all_containers candidates
  prune_repo keep tag repo = do
    images ← list_images repo
    containers ← list_all_containers
    prune_from 0 keep tag (candidates containers images)

  prune_keep : ℕ → Bytes → Io W (Unit {0})
  unfolding prune_repo
  prune_keep keep tag =
      if keep == 0
      then pure tt
      else if beq (repo_from_ref tag) []
      then pure tt
      else prune_repo keep tag (repo_from_ref tag)

  pub prune_images : Bytes → ℤ → Io W (Unit {0})
  unfolding prune_keep
  prune_images tag (pos keep) = prune_keep keep tag
  prune_images tag (negsuc _) = pure tt

  -- `Prune`: nothing is tried once the job's context is done.
  unfoldable pub prune : Bytes → ℤ → Io W (Unit {0})
  unfolding prune_images
  prune tag keep w = if cli.context_done w then pure tt w else prune_images tag keep w
