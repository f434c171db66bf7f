-- ===== src/Registry/Proxy/Tests.antt =====
-- The rewriting of a `Location` at an address in capitals.
use rollhook.Prelude.{◌≡◌, refl}
use rollhook.Text.{codes, beq}
use rollhook.Registry.Proxy.{
  rewrite_location, match_address, cut_prefix_fold, to_lower, skip_port, skip_digits,
}

internal_location :
    rewrite_location (codes "HTTPS://127.0.0.1:5000/v2/app/blobs/1") ≡ codes "/v2/app/blobs/1"
unfolding rewrite_location match_address cut_prefix_fold to_lower skip_port skip_digits beq
internal_location = refl
