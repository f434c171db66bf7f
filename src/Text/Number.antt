-- ===== src/Text/Number.antt =====
-- Go's `strconv.Atoi` and `strconv.ParseInt(s, 10, 64)`, which accept the same texts and agree on
-- their values.
use rollhook.Prelude.{
  ℕ, zero, suc, ◌+◌, ◌-◌, ◌*◌, ◌^◌, ◌==◌, ltb, leb, ◌&&◌, if◌then◌else◌, Bool, Option, none, some,
  [], ◌∷◌, ℤ, pos, negsuc,
}
use rollhook.Text.{Bytes}

abbrev pub is_digit : ℕ → Bool
is_digit c = leb b'0' c && leb c b'9'

pub parse_digits : Bytes → ℕ → Option ℕ
parse_digits [] n = some n
parse_digits (c ∷ s) n =
    let rest = parse_digits s (n * 10 + (c - b'0')) in if is_digit c then rest else none

abbrev int_bound : ℕ
int_bound = 2 ^ 63

positive : Option ℕ → Option ℤ
positive none = none
positive (some n) = if ltb n int_bound then some (pos n) else none

negative : Option ℕ → Option ℤ
negative none = none
negative (some zero) = some (pos 0)
negative (some (suc n)) = if ltb n int_bound then some (negsuc n) else none

-- At least one digit.
unsigned : Bytes → Option ℕ
unfolding parse_digits
unsigned [] = none
unsigned (c ∷ s) = parse_digits (c ∷ s) 0

unfoldable pub parse_int : Bytes → Option ℤ
unfolding positive negative unsigned
parse_int [] = none
parse_int (c ∷ s) =
    if c == b'-'
    then negative (unsigned s)
    else if c == b'+'
    then positive (unsigned s)
    else positive (unsigned (c ∷ s))
