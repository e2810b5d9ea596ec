-- ===== src/Ip.antt =====
-- internal/util/ip.go: the addresses of the host and of a client. A text is a list of bytes, and an IP
-- the list of its bytes. `net.ParseIP`, `IP.String`, `SplitHostPort`, `JoinHostPort`, the interfaces of
-- the host and `strings.TrimSpace` are parameters.
pub mod Private
pub mod Hosts
mod Tests
use fabrica_net.Base.{
  ℕ, zero, suc, ◌+◌, bit_and, Bool, true, false, ◌&&◌, ◌||◌, not, Option, none, some, List, [], ◌∷◌,
  if◌then◌else◌, ◌==◌, length, get_or, take, drop, eq_bytes, ◌⊎◌, inl, inr,
}

abbrev pub Text : Type 0
Text = List ℕ

-- Whether the bytes of the second are the first ones of the first.
abbrev pub has_prefix : Text → Text → Bool
has_prefix s [] = true
has_prefix [] (p ∷ ps) = false
has_prefix (x ∷ xs) (p ∷ ps) = (x == p) && has_prefix xs ps

-- An address and a connection may be nil.
pub remote_addr : Option (Option Text) → Text
remote_addr none = []
remote_addr (some none) = []
remote_addr (some (some addr)) = addr

pub local_addr : Option (Option Text) → Text
local_addr none = []
local_addr (some none) = []
local_addr (some (some addr)) = addr

-- `IP.To4`: four bytes, or sixteen of which the first twelve say so.
abbrev pub is_zeros : List ℕ → Bool
is_zeros [] = true
is_zeros (x ∷ xs) = (x == 0) && is_zeros xs

abbrev pub is_mapped : List ℕ → Bool
is_mapped ip = is_zeros (take 10 ip) && (get_or ip 10 0 == 255) && (get_or ip 11 0 == 255)

pub to4 : List ℕ → Option (List ℕ)
to4 ip =
    if length ip == 4
    then some ip
    else if (length ip == 16) && is_mapped ip
    then some (drop 12 ip)
    else none

-- The tests on a parsed address; an index out of range panics in the source and does not occur.
pub is_private_v4 : List ℕ → Bool
is_private_v4 ip =
    (get_or ip 0 0 == 10)
    || ((get_or ip 0 0 == 172) && (bit_and (get_or ip 1 0) 0xf0 == 16))
    || ((get_or ip 0 0 == 192) && (get_or ip 1 0 == 168))

pub is_private_v6 : List ℕ → Bool
is_private_v6 ip = (length ip == 16) && (bit_and (get_or ip 0 0) 0xfe == 0xfc)

pub is_private_parsed : Option (List ℕ) → Bool
unfolding to4 is_private_v4 is_private_v6
is_private_parsed none = false
is_private_parsed (some ip) = elim (to4 ip) [
  | some ip4 ↦ is_private_v4 ip4
  | none ↦ is_private_v6 ip
]

-- `isPrivateIP`
pub is_private_ip : (Text → Option (List ℕ)) → Text → Bool
unfolding is_private_parsed
is_private_ip parse_ip addr = is_private_parsed (parse_ip addr)

-- An address of an interface: `*net.IPAddr`, `*net.IPNet` or another.
pub data Addr : Type 0 where
  ip_addr : List ℕ → Addr
  ip_net : List ℕ → Addr
  other_addr : Addr

pub record Interface : Type 0 where
  pub name : Text
  pub up : Bool  -- `FlagUp`
  pub loopback : Bool  -- `FlagLoopback`
  pub addrs : Option (List Addr)  -- none is an error

-- What the source takes of `net`.
pub record Net : Type 0 where
  pub interfaces : Option (List Interface)
  pub parse_ip : Text → Option (List ℕ)
  pub ip_string : List ℕ → Text
  pub is_loopback : List ℕ → Bool
  pub split_host_port : Text → Option (Text × Text)
  pub join_host_port : Text → Text → Text

abbrev pub or_else {ℓ} : {A : Type ℓ} → Option A → Option A → Option A
or_else (some a) rest = some a
or_else none rest = rest

-- `InternalIP`: the loops return at the first address that serves.
pub internal_addr : Net → List Addr → Option Text
unfolding to4
internal_addr n [] = none
internal_addr n (ip_net ip ∷ rest) =
    or_else
      (if n.is_loopback ip
        then none
        else elim (to4 ip) [ none ↦ none | some v4 ↦ some (n.ip_string v4) ])
      (internal_addr n rest)
internal_addr n (ip_addr ip ∷ rest) = internal_addr n rest
internal_addr n (other_addr ∷ rest) = internal_addr n rest

pub internal_interface : Net → List Interface → Option Text
unfolding internal_addr
internal_interface n [] = none
internal_interface n (i ∷ rest) =
    or_else
      (if not i.up || has_prefix i.name (b'l' ∷ b'o' ∷ [])
        then none
        else elim i.addrs [ none ↦ none | some addrs ↦ internal_addr n addrs ])
      (internal_interface n rest)

abbrev pub text_or_empty : Option Text → Text
text_or_empty none = []
text_or_empty (some t) = t

pub internal_ip : Net → Text
unfolding internal_interface
internal_ip n = elim n.interfaces [ none ↦ [] | some is ↦ text_or_empty (internal_interface n is) ]

pub data IpError : Type 0 where
  invalid_host_port interface_lookup no_private_ip_found : IpError

-- `Extract`: the loops over the addresses and the interfaces.
abbrev pub ip_of : Addr → Option (List ℕ)
ip_of (ip_addr ip) = some ip
ip_of (ip_net ip) = some ip
ip_of other_addr = none

abbrev pub private_ip : Net → Option (List ℕ) → Option (List ℕ)
private_ip n none = none
private_ip n (some ip) = if is_private_ip n.parse_ip (n.ip_string ip) then some ip else none

pub extract_addr : Net → List Addr → Option (List ℕ)
unfolding is_private_ip
extract_addr n [] = none
extract_addr n (a ∷ rest) = or_else (private_ip n (ip_of a)) (extract_addr n rest)

pub extract_interface : Net → List Interface → Option (List ℕ)
unfolding extract_addr
extract_interface n [] = none
extract_interface n (i ∷ rest) =
    or_else
      (if not i.up || i.loopback
        then none
        else elim i.addrs [ none ↦ none | some addrs ↦ extract_addr n addrs ])
      (extract_interface n rest)

abbrev pub is_specific : Text → Bool
is_specific addr =
    not (eq_bytes addr [])
    && not (eq_bytes addr (b'0' ∷ b'.' ∷ b'0' ∷ b'.' ∷ b'0' ∷ b'.' ∷ b'0' ∷ []))
    && not (eq_bytes addr (b'[' ∷ b':' ∷ b':' ∷ b']' ∷ []))
    && not (eq_bytes addr (b':' ∷ b':' ∷ []))

abbrev pub joined : Net → Text → Option (List ℕ) → IpError ⊎ Text
joined n port none = inl no_private_ip_found
joined n port (some ip) = inr (n.join_host_port (n.ip_string ip) port)

abbrev pub from_interfaces : Net → Text → Option (List Interface) → IpError ⊎ Text
from_interfaces n port none = inl interface_lookup
from_interfaces n port (some is) = joined n port (extract_interface n is)

abbrev pub extracted : Net → Option (Text × Text) → IpError ⊎ Text
extracted n none = inl invalid_host_port
extracted n (some (addr, port)) =
    if is_specific addr
    then inr (n.join_host_port addr port)
    else from_interfaces n port n.interfaces

pub extract : Net → Text → IpError ⊎ Text
unfolding extract_interface
extract n host_port = extracted n (n.split_host_port host_port)

-- `strings.Split(v, ",")`, which gives one part at least.
abbrev pub onto_first : ℕ → List Text → List Text
onto_first c [] = (c ∷ []) ∷ []
onto_first c (p ∷ ps) = (c ∷ p) ∷ ps

pub split_comma : Text → List Text
split_comma [] = [] ∷ []
split_comma (c ∷ s) = let rest = split_comma s in if c == b',' then [] ∷ rest else onto_first c rest

-- `GetClientIP`, of the two headers of a request, if the context has one.
pub record Headers : Type 0 where
  pub x_forwarded_for : Text
  pub x_real_ip : Text

abbrev pub first_part : (Text → Text) → List Text → Text → Text
first_part trim [] otherwise = otherwise
first_part trim (p ∷ ps) otherwise = trim p

pub get_client_ip : (Text → Text) → Option Headers → Text
unfolding split_comma
get_client_ip trim none = []
get_client_ip trim (some h) =
    if eq_bytes h.x_forwarded_for []
    then h.x_real_ip
    else first_part trim (split_comma h.x_forwarded_for) h.x_real_ip
