-- ===== src/StringHelpers/Tests.antt =====
-- Runs of the string helpers, and their theorems at concrete texts.
use social_network.Prelude.{◌++◌, ◌≡◌, refl, arith, some, none, codes, equal, take, drop}
use social_network.StringHelpers.{
  trim, first_kept, end_kept, replace, replace_in_place, remove, translate, starts_with,
}
use social_network.StringHelpers.Trim.{IsTrimmed, trim-IsTrimmed}
use social_network.StringHelpers.Replace.{replace_all, replace_in_place-replace_all}

trim_run : trim (codes " \tab c\n ") ≡ codes "ab c"
unfolding trim first_kept end_kept
trim_run = refl

blank_run : trim (codes "  ") ≡ codes ""
unfolding trim first_kept end_kept
blank_run = refl

replace_run : replace (codes "a:::b::::") (codes ":::") (codes "::") 0 ≡ some (codes "a::b:::")
unfolding replace starts_with equal
replace_run = refl

replace_behind_end : replace (codes "ab") (codes "a") (codes "c") 3 ≡ none
unfolding replace starts_with equal
replace_behind_end = refl

remove_run : remove (codes "a-b-c") b'-' 2 ≡ some (codes "a-bc")
unfolding remove starts_with
remove_run = refl

translate_run : translate (codes "hello") (codes "elx") (codes "ip") ≡ codes "hippo"
unfolding translate starts_with
translate_run = refl

trim-IsTrimmed_example : IsTrimmed (codes " a b ") (trim (codes " a b "))
trim-IsTrimmed_example = trim-IsTrimmed (codes " a b ")

replace_in_place-replace_all_example :
    replace_in_place (codes "1:0a:0b") (codes ":0") (codes ":") 2
    ≡ some (
        take 2 (codes "1:0a:0b")
        ++ replace_all (codes ":0") (codes ":") 0 (drop 2 (codes "1:0a:0b")))
replace_in_place-replace_all_example =
    replace_in_place-replace_all (codes "1:0a:0b") (codes ":0") (codes ":") 2 (cc) (cc)
      (omega arith)
