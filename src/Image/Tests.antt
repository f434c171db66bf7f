-- ===== src/Image/Tests.antt =====
-- References with a registry, and the theorems at them.
use rollhook.Prelude.{none, some, inr, ◌++◌, ◌≡◌, refl, arith}
use rollhook.Text.{codes}
use rollhook.Image.{repo_from_ref}
use rollhook.Image.Reference.{Reference, IsReference, print}
use rollhook.Image.Names.{repo_from_ref-print}

abbrev tagged : Reference
tagged = record { dir = codes "r/"; name = codes "app"; tag = some (codes "v1"); digest = none }

tagged-IsReference : IsReference tagged
tagged-IsReference = record {
  dir_ends = inr (codes "r", refl);
  dir_at = ((λ h. ground arith), ((λ h. ground arith), tt));
  name_slash = ((λ h. ground arith), ((λ h. ground arith), ((λ h. ground arith), tt)));
  name_colon = ((λ h. ground arith), ((λ h. ground arith), ((λ h. ground arith), tt)));
  name_at = ((λ h. ground arith), ((λ h. ground arith), ((λ h. ground arith), tt)));
  tag_slash = ((λ h. ground arith), ((λ h. ground arith), ((λ h. ground arith), tt)));
  tag_at = ((λ h. ground arith), ((λ h. ground arith), ((λ h. ground arith), tt)));
}

repo_from_ref-print_example : repo_from_ref (print tagged) ≡ codes "r/" ++ codes "app"
repo_from_ref-print_example = repo_from_ref-print tagged tagged-IsReference
