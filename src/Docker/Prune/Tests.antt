-- ===== src/Docker/Prune/Tests.antt =====
-- A prune on the small machine.
use rollhook.Prelude.{List, [], ◌∷◌, ok, ◌≡◌, ◌≢◌, refl, sym, ◌∙◌, none, inl, arith, pos}
use rollhook.Text.{codes}
use rollhook.Image.{repo_from_ref}
use rollhook.Image.Names.{repo_from_ref-print}
use rollhook.Effect.{call}
use rollhook.Docker.{ImageSummary}
use rollhook.Docker.Prune.{list_images, list_all_containers, prune_images}
use rollhook.Docker.Prune.Chosen.{to_remove, unused}
use rollhook.Docker.Prune.Kept.{removals, removals-prune_images}
use rollhook.Fixtures.{docker, before, image, old_container}

abbrev in_order : List ImageSummary → List ImageSummary
in_order images = images

abbrev images : List ImageSummary
images = image (codes "img1") 3 ∷ image (codes "img2") 2 ∷ image (codes "img3") 1 ∷ []

plain_name : repo_from_ref (codes "app") ≡ codes "app"
plain_name =
    repo_from_ref-print (record { dir = []; name = codes "app"; tag = none; digest = none })
      (record {
        dir_ends = inl refl;
        dir_at = tt;
        name_slash = ((λ h. ground arith), ((λ h. ground arith), ((λ h. ground arith), tt)));
        name_colon = ((λ h. ground arith), ((λ h. ground arith), ((λ h. ground arith), tt)));
        name_at = ((λ h. ground arith), ((λ h. ground arith), ((λ h. ground arith), tt)));
        tag_slash = tt;
        tag_at = tt;
      })

named : repo_from_ref (codes "app") ≢ []
named h = cc (sym plain_name ∙ h)

listed : (list_images docker in_order (repo_from_ref (codes "app")) before).0 ≡ ok images
unfolding list_images call
listed = refl

running :
    (list_all_containers docker in_order
      (list_images docker in_order (repo_from_ref (codes "app")) before).2).0
    ≡ ok (old_container ∷ [])
unfolding list_images list_all_containers call
running = refl

removals-prune_images_example :
    removals (prune_images docker in_order (codes "app") (pos 1) before).1
    ≡ to_remove 1 (codes "app") (in_order (unused (old_container ∷ []) images))
removals-prune_images_example =
    removals-prune_images docker in_order 1 (codes "app") before images (old_container ∷ [])
      (omega arith) named listed running
