-- ===== src/Ip/Tests.antt =====
-- internal/util/ip.go: the theorems on a host with a public and a private address, and the address that
-- `InternalIP` gives of it.
use fabrica_net.Base.{
  ℕ, true, false, Option, none, some, List, [], ◌∷◌, ◌++◌, ◌≡◌, ◌↔◌, refl, if◌then◌else◌, ◌==◌,
  replicate, length, arith,
}
use fabrica_net.Ip.{
  Text, Interface, Net, ip_net, is_private_ip, extract, internal_ip, internal_interface,
  internal_addr, to4, get_client_ip, split_comma,
}
use fabrica_net.Ip.Private.{InRanges, is_private_ip-InRanges}
use fabrica_net.Ip.Hosts.{Extracts, extract-Extracts}

abbrev mapped : ℕ → ℕ → ℕ → ℕ → List ℕ
mapped a b c d = replicate 10 0 ++ (255 ∷ 255 ∷ a ∷ b ∷ c ∷ d ∷ [])

-- A text is the bytes of its address.
abbrev parse : Text → Option (List ℕ)
parse t = if length t == 16 then some t else none

abbrev ethernet : Interface
ethernet = record {
  name = b'e' ∷ [];
  up = true;
  loopback = false;
  addrs = some (ip_net (mapped 8 8 8 8) ∷ ip_net (mapped 172 31 0 1) ∷ []);
}

-- A host and port is split off behind sixteen bytes, if it is so long.
abbrev host : Net
host = record {
  interfaces = some (record ethernet { up = false } ∷ ethernet ∷ []);
  parse_ip = parse;
  ip_string = λ ip. ip;
  is_loopback = λ ip. false;
  split_host_port = λ t. some ([], t);
  join_host_port = λ a p. a ++ p;
}

is_private_ip-InRanges_example :
    ((is_private_ip parse (mapped 172 31 0 1) ≡ true) ↔ InRanges (mapped 172 31 0 1))
    × (is_private_ip parse [] ≡ false)
is_private_ip-InRanges_example =
    is_private_ip-InRanges parse (mapped 172 31 0 1) [] (mapped 172 31 0 1) refl refl refl
      (omega arith) (omega arith)

extract-Extracts_example :
    Extracts host (some ([], b'8' ∷ [])) host.interfaces (extract host (b'8' ∷ []))
extract-Extracts_example = extract-Extracts host (b'8' ∷ [])

-- `InternalIP` gives the public address.
internal : internal_ip host ≡ 8 ∷ 8 ∷ 8 ∷ 8 ∷ []
unfolding internal_ip internal_interface internal_addr to4
internal = refl

-- The first of two addresses in a header.
forwarded :
    get_client_ip (λ t. t) (some (record { x_forwarded_for = 49 ∷ b',' ∷ 50 ∷ []; x_real_ip = [] }))
    ≡ 49 ∷ []
unfolding get_client_ip split_comma
forwarded = refl
