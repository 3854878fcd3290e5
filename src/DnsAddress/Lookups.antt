-- ===== src/DnsAddress/Lookups.antt =====
-- The lookups of dns_address.cpp: what an entry holds, and which exceptions leave.
use social_network.Prelude.{
  ℕ, Bool, ◌≡◌, refl, true, false, ◌||◌, ◌==◌, List, [], ◌∷◌, Option, none, some, Bytes, Attempt,
  done, dns_exception, std_exception, Bool-cases, inl, inr, arith, if◌then◌else◌,
}
use social_network.IpAddress.{
  IpAddress, Family, less, wildcard, from_in_addr, from_in6_addr, word_of,
}
use social_network.IpAddress.Text.{try_parse, to_string, c_str}
use social_network.DnsAddress.{
  HostEntry, Hostent, Addrinfo, EaiError, HostError, Answer, given, failed, Found, found, missing,
  string_less, remove_duplicates, from_raw_addr, from_raw_addrs, from_hostent, from_addrinfo,
  h_errno_what, eai_what, by_hostent, fall_back, entry_or_fall_back, named_entry, host_by_name,
  host_by_address, resolve, default_flags, read_addresses,
}
use social_network.DnsAddress.Duplicates.{
  Distinct, remove_duplicates-Distinct, string_less_self, less_self,
}

-- What a lookup promises: an entry without duplicates, or a `DnsException`.
abbrev pub IsEntry : Attempt HostEntry → Type 0
IsEntry (done entry) = Distinct string_less entry.aliases_ × Distinct less entry.addresses_
IsEntry (dns_exception what) = Unit {0}
IsEntry (std_exception what) = ⊥

-- What the system promises of a `hostent`: its addresses have the length of an IP address.
abbrev pub HasLength : Found → Type 0
HasLength (found entry) = ((entry.h_length == 4) || (entry.h_length == 16)) ≡ true
HasLength (missing h_errno) = Unit {0}

from_raw_addr-done :
    (address : Bytes) (len : ℕ)
    → ((len == 4) || (len == 16)) ≡ true
    → (ip : IpAddress) × (from_raw_addr address len ≡ done ip)
unfolding from_raw_addr
from_raw_addr-done address len h = elim (Bool-cases (len == 4)) [
  | inl e ↦ (from_in_addr (word_of address), rw e refl)
  | inr e ↦ (from_in6_addr address, let six : (len == 16) ≡ true = ground arith in rw (e, six) refl)
]

from_raw_addrs-done :
    (addresses : List Bytes) (len : ℕ)
    → ((len == 4) || (len == 16)) ≡ true
    → (ips : List IpAddress) × (from_raw_addrs addresses len ≡ done ips)
unfolding from_raw_addrs
from_raw_addrs-done [] len h = ([], refl)
from_raw_addrs-done (a ∷ addresses) len h =
    let first = from_raw_addr-done a len h in
    let rest = from_raw_addrs-done addresses len h in (first.0 ∷ rest.0, rw (first.1, rest.1) refl)

distinct-IsEntry :
    (name : Bytes) (aliases : List Bytes) (addresses : List IpAddress)
    → IsEntry (
        done (record {
          name_ = name;
          aliases_ = remove_duplicates string_less aliases;
          addresses_ = remove_duplicates less addresses;
        }))
distinct-IsEntry name aliases addresses = (
  (remove_duplicates-Distinct string_less string_less_self aliases).0,
  (remove_duplicates-Distinct less less_self addresses).0,
)

from_addrinfo-IsEntry : (info : List Addrinfo) → IsEntry (done (from_addrinfo info))
unfolding from_addrinfo
from_addrinfo-IsEntry info =
    (tt, (remove_duplicates-Distinct less less_self (read_addresses info)).0)

from_hostent-IsEntry : (entry : Hostent) → HasLength (found entry) → IsEntry (from_hostent entry)
unfolding from_hostent
from_hostent-IsEntry entry h =
    let ips = from_raw_addrs-done entry.h_addr_list entry.h_length h in
    rw ips.1 (distinct-IsEntry entry.h_name entry.h_aliases ips.0)

some_exception :
    (what : Option Bytes) (otherwise : Attempt HostEntry)
    → IsEntry otherwise
    → IsEntry (elim what [ none ↦ otherwise | some text ↦ dns_exception text ])
some_exception none otherwise h = h
some_exception (some text) otherwise h = tt

by_hostent-IsEntry :
    (older : Found) (name : Bytes) → HasLength older → IsEntry (by_hostent older name)
unfolding by_hostent
by_hostent-IsEntry (found entry) name h = from_hostent-IsEntry entry h
by_hostent-IsEntry (missing h_errno) name h = some_exception (h_errno_what h_errno name) _ tt

fall_back-IsEntry :
    (rc : EaiError) (h_errno : HostError) (older : Found) (name : Bytes)
    → HasLength older
    → IsEntry (fall_back rc h_errno older name)
unfolding fall_back
fall_back-IsEntry rc h_errno older name h =
    some_exception (eai_what rc h_errno name) (by_hostent older name)
      (by_hostent-IsEntry older name h)

entry_or_fall_back-IsEntry :
    (answer : Answer (List Addrinfo)) (older : Found) (name : Bytes)
    → HasLength older
    → IsEntry (entry_or_fall_back answer older name)
entry_or_fall_back-IsEntry (given ai) older name h = from_addrinfo-IsEntry ai
entry_or_fall_back-IsEntry (failed rc h_errno) older name h =
    fall_back-IsEntry rc h_errno older name h

module _ (getaddrinfo : Bytes → ℕ → Answer (List Addrinfo)) (gethostbyname : Bytes → Found)
    (lengths : (name : Bytes) → HasLength (gethostbyname name))
    (getnameinfo : IpAddress → Answer Bytes) (gethostbyaddr : IpAddress → Found)
    (addr_lengths : (ip : IpAddress) → HasLength (gethostbyaddr ip)) (behind : ℕ) where
  named_entry-IsEntry :
      (answer : Answer Bytes) (ip : IpAddress) (flags : ℕ)
      → IsEntry
          (named_entry getaddrinfo gethostbyname getnameinfo gethostbyaddr behind answer ip flags)
  unfolding named_entry
  named_entry-IsEntry (given fqname) ip flags =
      entry_or_fall_back-IsEntry (getaddrinfo fqname flags) (gethostbyaddr ip) (to_string behind ip)
        (addr_lengths ip)
  named_entry-IsEntry (failed rc h_errno) ip flags =
      fall_back-IsEntry rc h_errno (gethostbyaddr ip) (to_string behind ip) (addr_lengths ip)

  resolved :
      (ip : IpAddress) (parsed : Bool) (address : Bytes)
      → IsEntry (
          if parsed
          then host_by_address getaddrinfo gethostbyname getnameinfo gethostbyaddr behind ip
              default_flags
          else host_by_name getaddrinfo gethostbyname address default_flags)
  unfolding host_by_address host_by_name
  resolved ip true address = named_entry-IsEntry (getnameinfo ip) ip default_flags
  resolved ip false address =
      entry_or_fall_back-IsEntry (getaddrinfo (c_str address) default_flags)
        (gethostbyname (c_str address)) address (lengths (c_str address))

  -- If the addresses of a `hostent` have the length of an IP address, `resolve` gives an entry in
  -- which no alias and no address stands twice, or throws a `DnsException`: no other exception
  -- leaves, whatever the text is and whatever the lookups answer.
  pub resolve-IsEntry :
      (inet_pton : Family → Bytes → Bool × Bytes) (address : Bytes)
      → IsEntry
          (resolve getaddrinfo gethostbyname getnameinfo gethostbyaddr behind inet_pton address)
  unfolding resolve
  resolve-IsEntry inet_pton address =
      let read = try_parse inet_pton wildcard address in resolved read.0 read.1 address
