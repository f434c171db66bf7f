-- ===== src/Notifier/Tests.antt =====
-- Headers of two pairs, and the theorem at them.
use rollhook.Prelude.{none, [], ◌∷◌, map, ◌≡◌, refl, arith}
use rollhook.Text.{Bytes, codes, join, trim_space, trim_left, trim_right}
use rollhook.Notifier.Otlp.{parse_otlp_headers}
use rollhook.Notifier.Otlp.Parsed.{
  IsClean, print_pair, lookup, last_value, parse_otlp_headers-print,
}

abbrev authorization : Bytes × Bytes
authorization = (codes "k", codes "a b")

abbrev tenant : Bytes × Bytes
tenant = (codes "t", codes "1")

authorization-IsClean : IsClean authorization
unfolding trim_space trim_left trim_right
authorization-IsClean = (
  (λ h. cc),
  ((λ h. ground arith), tt),
  ((λ h. ground arith), tt),
  ((λ h. ground arith), ((λ h. ground arith), ((λ h. ground arith), tt))),
  refl,
  refl,
)

tenant-IsClean : IsClean tenant
unfolding trim_space trim_left trim_right
tenant-IsClean = (
  (λ h. cc),
  ((λ h. ground arith), tt),
  ((λ h. ground arith), tt),
  ((λ h. ground arith), tt),
  refl,
  refl,
)

parse_otlp_headers-print_example :
    lookup
      (codes "t")
      (parse_otlp_headers (join b',' (map print_pair (authorization ∷ tenant ∷ []))))
    ≡ last_value (codes "t") (authorization ∷ tenant ∷ []) none
parse_otlp_headers-print_example =
    parse_otlp_headers-print authorization (tenant ∷ []) (codes "t")
      (authorization-IsClean, (tenant-IsClean, tt))
