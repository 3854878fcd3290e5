-- ===== src/NumberParser/Tests.antt =====
-- Runs of the number parser, and its theorems at concrete numbers.
use social_network.Prelude.{
  ◌^◌, ◌∷◌, ◌≡◌, refl, arith, some, none, true, false, codes, drop_while, equal, pos, negsuc, neg_ℕ,
  ltb, leb, if◌then◌else◌,
}
use social_network.StringHelpers.{to_lowercase}
use social_network.Format.{decimal}
use social_network.NumberParser.{
  parse_hex, parse_oct, parse_uint, parse_uint64, parse_int, parse_int64, parse_bool,
  try_parse_uint, try_parse_uint64, try_parse_int,
}
use social_network.NumberParser.Unsigned.{try_parse_uint-decimal, try_parse_int-decimal}

decimal_run : decimal 65535 ≡ codes "65535"
unfolding decimal
decimal_run = refl

parse_runs :
    (parse_hex (codes "0xfF") ≡ some 255)
    × (parse_oct (codes "017") ≡ some 15)
    × (parse_uint (codes " 80tcp") ≡ some 80)
    × (parse_uint (codes "4294967376") ≡ some 80)
    × (parse_uint64 (codes "18446744073709551616") ≡ none)
    × (parse_int (codes "-2147483648") ≡ some (negsuc 2147483647))
    × (parse_int (codes "2147483648") ≡ none)
    × (parse_int64 (codes "2147483648") ≡ some (pos 2147483648))
unfolding parse_hex parse_oct parse_uint parse_uint64 parse_int parse_int64 drop_while
parse_runs = (refl, refl, refl, refl, refl, refl, refl, refl)

parse_bool_runs :
    (parse_bool (codes "YES") ≡ some true)
    × (parse_bool (codes "oFf") ≡ some false)
    × (parse_bool (codes "-3") ≡ some true)
    × (parse_bool (codes "maybe") ≡ none)
unfolding parse_bool drop_while equal to_lowercase
parse_bool_runs = (refl, refl, refl, refl)

try_parse_uint-decimal_example :
    (try_parse_uint64 (decimal 4294967376) 7 ≡ (4294967376, true))
    × (try_parse_uint (decimal 4294967376) 7 ≡ (80, true))
try_parse_uint-decimal_example = try_parse_uint-decimal 4294967376 7 (omega arith)

try_parse_int-decimal_example :
    (try_parse_int (decimal 5432) (pos 0)
      ≡ (if ltb 5432 (2 ^ 31) then (pos 5432, true) else (pos 0, false)))
    × (try_parse_int (b'-' ∷ decimal 5432) (pos 0)
        ≡ (if leb 5432 (2 ^ 31) then (neg_ℕ 5432, true) else (pos 0, false)))
try_parse_int-decimal_example = try_parse_int-decimal 5432 (pos 0)
