-- ===== src/DnsAddress/Tests.antt =====
-- Runs of the lookups, and their theorems at concrete answers.
use social_network.Prelude.{
  false, drop_while, ℕ, ◌≡◌, refl, true, List, [], ◌∷◌, Option, none, some, Bytes, codes, done, All,
}
use social_network.IpAddress.{IpAddress, sockaddr_in}
use social_network.DnsAddress.{
  Addrinfo, Answer, given, failed, Found, missing, eai_noname, host_not_found, string_less,
  is_known, remove_duplicates, resolve, resolve_service_to_port,
}
use social_network.DnsAddress.Duplicates.{
  Sublist, Distinct, remove_duplicates-Distinct, string_less_self,
}
use social_network.DnsAddress.Lookups.{IsEntry, resolve-IsEntry}

abbrev no_services : Bytes → Option ℕ
no_services name = none

-- A number is cut down to 32 bits before its range is looked at.
cut_down : resolve_service_to_port no_services (codes "4294967376") ≡ done 80
unfolding resolve_service_to_port drop_while
cut_down = refl

abbrev names : List Bytes
names = codes "www" ∷ codes "web" ∷ codes "www" ∷ codes "a" ∷ codes "web" ∷ []

firsts : remove_duplicates string_less names ≡ codes "www" ∷ codes "web" ∷ codes "a" ∷ []
unfolding remove_duplicates string_less
firsts = refl

remove_duplicates-Distinct_example :
    Distinct string_less (remove_duplicates string_less names)
    × All (λ v. is_known string_less v (remove_duplicates string_less names) ≡ true) names
    × Sublist (remove_duplicates string_less names) names
remove_duplicates-Distinct_example = remove_duplicates-Distinct string_less string_less_self names

-- A lookup that answers with the same address twice, and one that finds nothing.
abbrev getaddrinfo : Bytes → ℕ → Answer (List Addrinfo)
getaddrinfo name flags =
    let ai : Addrinfo = record {
      ai_canonname = some name;
      ai_addr = some (sockaddr_in 16777343);
    } in
    given (ai ∷ ai ∷ [])

abbrev gethostbyname : Bytes → Found
gethostbyname name = missing host_not_found

abbrev getnameinfo : IpAddress → Answer Bytes
getnameinfo ip = failed eai_noname host_not_found

abbrev gethostbyaddr : IpAddress → Found
gethostbyaddr ip = missing host_not_found

resolve-IsEntry_example : IsEntry (
    resolve getaddrinfo gethostbyname getnameinfo gethostbyaddr 0
      (λ family s. (false, []))
      (codes "localhost"))
resolve-IsEntry_example =
    resolve-IsEntry getaddrinfo gethostbyname (λ name. tt) getnameinfo gethostbyaddr (λ ip. tt) 0
      (λ family s. (false, [])) (codes "localhost")
