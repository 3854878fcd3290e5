-- ===== src/DnsAddress.antt =====
-- service/sources/helpers/dns_address.cpp. The C library's `getaddrinfo`, `gethostbyname`,
-- `gethostbyaddr`, `getnameinfo`, `getservbyname` and `gethostname` are parameters.
pub mod Duplicates
pub mod Services
pub mod Lookups
mod Tests
use social_network.Prelude.{
  ℕ, ◌*◌, ◌%◌, ◌+◌, Bool, true, false, not, ◌&&◌, ◌||◌, List, [], ◌∷◌, ◌++◌, Option, none, some,
  leb, ◌==◌, if◌then◌else◌, Bytes, codes, Attempt, done, dns_exception, std_exception, or_throw,
}
use social_network.Prelude.Attempts.{◌>>=◌}
use social_network.NumberParser.{try_parse_uint}
use social_network.IpAddress.{
  IpAddress, Family, Sockaddr, from_sockaddr, from_in_addr, from_in6_addr, wildcard, word_of,
  equals, greater, less,
}
use social_network.IpAddress.Text.{c_str, htons, try_parse, to_string}

-- `std::string`'s `<`.
unfoldable pub string_less : Bytes → Bytes → Bool
string_less s [] = false
string_less [] (d ∷ t) = true
string_less (c ∷ s) (d ∷ t) = if c == d then string_less s t else leb c d

-- `unique_values.insert(v).second` is false: the set has an element that is neither less nor greater.
unfoldable pub is_known {ℓ} : {A : Type ℓ} → (A → A → Bool) → A → List A → Bool
is_known less v [] = false
is_known less v (u ∷ unique_values) =
    (not (less v u) && not (less u v)) || is_known less v unique_values

-- `std::remove_if` over the list, with the set of what was kept.
unfoldable pub keep_unknown {ℓ} : {A : Type ℓ} → (A → A → Bool) → List A → List A → List A
unfolding is_known
keep_unknown less unique_values [] = []
keep_unknown less unique_values (v ∷ list) =
    if is_known less v unique_values
    then keep_unknown less unique_values list
    else v ∷ keep_unknown less (v ∷ unique_values) list

unfoldable pub remove_duplicates {ℓ} : {A : Type ℓ} → (A → A → Bool) → List A → List A
unfolding keep_unknown
remove_duplicates less list = keep_unknown less [] list

pub record HostEntry : Type 0 where
  pub name_ : Bytes
  pub aliases_ : List Bytes
  pub addresses_ : List IpAddress

-- A `hostent` and one member of a list of `addrinfo`s.
pub record Hostent : Type 0 where
  pub h_name : Bytes
  pub h_aliases : List Bytes
  pub h_length : ℕ
  pub h_addr_list : List Bytes

pub record Addrinfo : Type 0 where
  pub ai_canonname : Option Bytes
  pub ai_addr : Option Sockaddr

-- `IpAddress(*address, entry->h_length)`: the constructor from an `in_addr` or an `in6_addr`.
unfoldable pub from_raw_addr : Bytes → ℕ → Attempt IpAddress
unfolding from_in_addr from_in6_addr
from_raw_addr in_addr len =
    if len == 4
    then done (from_in_addr (word_of in_addr))
    else if len == 16
    then done (from_in6_addr in_addr)
    else std_exception (codes "invalid address length passed to IpAddress()")

unfoldable pub from_raw_addrs : List Bytes → ℕ → Attempt (List IpAddress)
unfolding from_raw_addr
from_raw_addrs [] len = done []
from_raw_addrs (address ∷ h_addr_list) len = from_raw_addr address len >>= λ ip.
    from_raw_addrs h_addr_list len >>= λ addresses. done (ip ∷ addresses)

unfoldable pub from_hostent : Hostent → Attempt HostEntry
unfolding remove_duplicates from_raw_addrs string_less less
from_hostent entry = from_raw_addrs entry.h_addr_list entry.h_length >>= λ addresses. done (record {
  name_ = entry.h_name;
  aliases_ = remove_duplicates string_less entry.h_aliases;
  addresses_ = remove_duplicates less addresses;
})

abbrev pub last_name : Bytes → Option Bytes → Bytes
last_name name none = name
last_name name (some ai_canonname) = ai_canonname

-- The loop over the `addrinfo`s: a name replaces the one before, an address of another family than
-- those of IP is passed over.
unfoldable pub read_names : Bytes → List Addrinfo → Bytes
read_names name [] = name
read_names name (ai ∷ info) = read_names (last_name name ai.ai_canonname) info

abbrev pub read_address : Option Sockaddr → List IpAddress
unfolding from_sockaddr
read_address none = []
read_address (some sa) = elim (from_sockaddr sa) [ none ↦ [] | some ip ↦ ip ∷ [] ]

unfoldable pub read_addresses : List Addrinfo → List IpAddress
unfolding from_sockaddr
read_addresses [] = []
read_addresses (ai ∷ info) = read_address ai.ai_addr ++ read_addresses info

unfoldable pub from_addrinfo : List Addrinfo → HostEntry
unfolding read_names read_addresses remove_duplicates less
from_addrinfo info = record {
  name_ = read_names [] info;
  aliases_ = [];
  addresses_ = remove_duplicates less (read_addresses info);
}

unfoldable pub swap : HostEntry → HostEntry → HostEntry × HostEntry
swap this he = (
  record this { name_ = he.name_; aliases_ = he.aliases_; addresses_ = he.addresses_ },
  record he { name_ = this.name_; aliases_ = this.aliases_; addresses_ = this.addresses_ },
)

-- What `getaddrinfo` and `getnameinfo` return when they fail, and the values of `h_errno`.
pub data EaiError : Type 0 where
  eai_again eai_fail eai_noname eai_nodata eai_system eai_other : EaiError

pub data HostError : Type 0 where
  not_ready not_initialized try_again no_recovery host_not_found no_data host_other : HostError

abbrev pub quoted : Bytes → Bytes → Bytes
quoted text name = text ++ name ++ codes "'"

abbrev pub temporary : Bytes → Bytes
temporary name = quoted (codes "temporary DNS error while resolving '") name

abbrev pub non_recoverable : Bytes → Bytes
non_recoverable name = quoted (codes "non recoverable DNS error while resolving '") name

abbrev pub not_found : Bytes → Bytes
not_found name = quoted (codes "host not found for '") name

abbrev pub no_address : Bytes → Bytes
no_address name = quoted (codes "no address found for '") name

-- `switch (h_errno)`: `none` is the default branch.
unfoldable pub h_errno_what : HostError → Bytes → Option Bytes
h_errno_what not_ready name = some (codes "net subsystem not ready")
h_errno_what not_initialized name = some (codes "net subsystem not initialized")
h_errno_what try_again name = some (temporary name)
h_errno_what no_recovery name = some (non_recoverable name)
h_errno_what host_not_found name = some (not_found name)
h_errno_what no_data name = some (no_address name)
h_errno_what host_other name = none

-- `switch (rc)`.
unfoldable pub eai_what : EaiError → HostError → Bytes → Option Bytes
unfolding h_errno_what
eai_what eai_again h_errno name = some (temporary name)
eai_what eai_fail h_errno name = some (non_recoverable name)
eai_what eai_noname h_errno name = some (not_found name)
eai_what eai_nodata h_errno name = some (no_address name)
eai_what eai_system h_errno name = h_errno_what h_errno name
eai_what eai_other h_errno name = none

abbrev pub net_exception : Bytes
net_exception = codes "net exception"

-- What a call gives: its result, or its error and the `h_errno` that it leaves.
pub data Answer {ℓ} (A : Type ℓ) : Type ℓ where
  given : A → Answer A
  failed : EaiError → HostError → Answer A

-- `gethostbyname` and `gethostbyaddr` report in `h_errno` alone.
pub data Found : Type 0 where
  found : Hostent → Found
  missing : HostError → Found

unfoldable pub by_hostent : Found → Bytes → Attempt HostEntry
unfolding from_hostent h_errno_what
by_hostent (found entry) name = from_hostent entry
by_hostent (missing h_errno) name = elim (h_errno_what h_errno name) [
  | none ↦ dns_exception net_exception
  | some what ↦ dns_exception what
]

-- Behind the lookup that failed: its exception, or the older lookup.
unfoldable pub fall_back : EaiError → HostError → Found → Bytes → Attempt HostEntry
unfolding eai_what by_hostent
fall_back rc h_errno older name = elim (eai_what rc h_errno name) [
  | none ↦ by_hostent older name
  | some what ↦ dns_exception what
]

-- Behind `getaddrinfo`.
abbrev pub entry_or_fall_back : Answer (List Addrinfo) → Found → Bytes → Attempt HostEntry
entry_or_fall_back (given ai) older name = done (from_addrinfo ai)
entry_or_fall_back (failed rc h_errno) older name = fall_back rc h_errno older name

-- `DNS_HINT_AI_CANONNAME | DNS_HINT_AI_ADDRCONFIG`.
abbrev pub default_flags : ℕ
default_flags = 2 + 32

abbrev pub first_address : List IpAddress → Bytes → Attempt IpAddress
first_address [] address = dns_exception (no_address address)
first_address (ip ∷ addresses) address = done ip

-- `this_host_name`: `none` of `gethostname` is an error.
unfoldable pub this_host_name : Option Bytes → Attempt Bytes
this_host_name none = dns_exception (codes "cannot get host name")
this_host_name (some buffer) = done (c_str buffer)

module _ (getaddrinfo : Bytes → ℕ → Answer (List Addrinfo)) (gethostbyname : Bytes → Found) where
  unfoldable pub host_by_name : Bytes → ℕ → Attempt HostEntry
  unfolding from_addrinfo fall_back
  host_by_name hostname flags =
      entry_or_fall_back (getaddrinfo (c_str hostname) flags) (gethostbyname (c_str hostname))
        hostname

  unfoldable pub this_host : Option Bytes → Attempt HostEntry
  unfolding host_by_name this_host_name
  this_host gethostname = this_host_name gethostname >>= λ name. host_by_name name default_flags

  module _ (getnameinfo : IpAddress → Answer Bytes) (gethostbyaddr : IpAddress → Found)
      (behind : ℕ) where
    -- Behind `getnameinfo`.
    abbrev pub named_entry : Answer Bytes → IpAddress → ℕ → Attempt HostEntry
    unfolding to_string
    named_entry (given fqname) address flags =
        entry_or_fall_back (getaddrinfo fqname flags) (gethostbyaddr address)
          (to_string behind address)
    named_entry (failed rc h_errno) address flags =
        fall_back rc h_errno (gethostbyaddr address) (to_string behind address)

    unfoldable pub host_by_address : IpAddress → ℕ → Attempt HostEntry
    host_by_address address flags = named_entry (getnameinfo address) address flags

    module _ (inet_pton : Family → Bytes → Bool × Bytes) where
      unfoldable pub resolve : Bytes → Attempt HostEntry
      unfolding try_parse host_by_address host_by_name wildcard
      resolve address =
          let (ip, parsed) = try_parse inet_pton wildcard address in
          if parsed then host_by_address ip default_flags else host_by_name address default_flags

      unfoldable pub resolve_one : Bytes → Attempt IpAddress
      unfolding resolve
      resolve_one address = resolve address >>= λ entry. first_address entry.addresses_ address

-- The number that was parsed, or what `getservbyname` gives: `none` is a service that is not known;
-- `s_port` is in network order.
abbrev pub port_or_service : ℕ × Bool → Option ℕ → Bytes → Attempt ℕ
port_or_service (port, parsed) servent service =
    if parsed && leb port 65535 then done port else elim servent [
      | none ↦ dns_exception (quoted (codes "service porn not found by service name = '") service)
      | some s_port ↦ done (htons (s_port % 65536))
    ]

unfoldable pub resolve_service_to_port : (Bytes → Option ℕ) → Bytes → Attempt ℕ
unfolding try_parse_uint
resolve_service_to_port getservbyname service =
    port_or_service (try_parse_uint service 0) (getservbyname (c_str service)) service
