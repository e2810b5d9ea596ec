-- ===== src/Ip/Hosts.antt =====
-- internal/util/ip.go: the address that `Extract` gives.
use fabrica_net.Base.{
  ℕ, true, ◌||◌, not, Option, none, some, List, [], ◌∷◌, ◌++◌, if◌then◌else◌, ◌⊎◌, inl, inr, ◌≡◌,
  ◌∙◌, refl, sym, ap, subst, Bool-cases, Option-cases,
}
use fabrica_net.Ip.{
  Text, Addr, Interface, Net, or_else, private_ip, ip_of, extract_addr, extract_interface, extract,
  extracted, from_interfaces, joined, is_specific, is_private_ip, IpError, invalid_host_port,
  interface_lookup,
}

-- The addresses that count, in the order of the interfaces.
abbrev pub addrs_of : Interface → List Addr
addrs_of i = if not i.up || i.loopback then [] else elim i.addrs [ none ↦ [] | some addrs ↦ addrs ]

abbrev pub candidates : List Interface → List Addr
candidates [] = []
candidates (i ∷ is) = addrs_of i ++ candidates is

-- The first address of a list that is an IP in a private range, and what is before it is not.
abbrev pub FirstPrivate : Net → List Addr → Option (List ℕ) → Type 0
FirstPrivate n [] none = Unit
FirstPrivate n [] (some ip) = ⊥
FirstPrivate n (a ∷ rest) found =
    (((ip : List ℕ) × (ip_of a ≡ some ip)
        × (is_private_ip n.parse_ip (n.ip_string ip) ≡ true)
        × (found ≡ some ip))
      ⊎ ((private_ip n (ip_of a) ≡ none) × FirstPrivate n rest found))

or_else_assoc : (a b c : Option (List ℕ)) → or_else (or_else a b) c ≡ or_else a (or_else b c)
or_else_assoc none b c = refl
or_else_assoc (some x) b c = refl

extract_addr-append :
    (n : Net) (xs ys : List Addr)
    → extract_addr n (xs ++ ys) ≡ or_else (extract_addr n xs) (extract_addr n ys)
unfolding extract_addr
extract_addr-append n [] ys = refl
extract_addr-append n (x ∷ xs) ys =
    ap (or_else (private_ip n (ip_of x))) (extract_addr-append n xs ys)
    ∙ sym (or_else_assoc (private_ip n (ip_of x)) (extract_addr n xs) (extract_addr n ys))

of_interface :
    (n : Net) (i : Interface)
    → (if not i.up || i.loopback
        then none
        else elim i.addrs [ none ↦ none | some addrs ↦ extract_addr n addrs ])
      ≡ extract_addr n (addrs_of i)
unfolding extract_addr
of_interface n i = elim (Bool-cases (not i.up || i.loopback)) [
  | inl y ↦ rw y refl
  | inr q ↦ elim (Option-cases i.addrs) [ inl a ↦ rw (q, a) refl | inr (addrs, a) ↦ rw (q, a) refl ]
]

extract_interface-candidates :
    (n : Net) (is : List Interface) → extract_interface n is ≡ extract_addr n (candidates is)
unfolding extract_interface extract_addr
extract_interface-candidates n [] = refl
extract_interface-candidates n (i ∷ is) =
    ap (λ o. or_else o (extract_interface n is)) (of_interface n i)
    ∙ ap (or_else (extract_addr n (addrs_of i))) (extract_interface-candidates n is)
    ∙ sym (extract_addr-append n (addrs_of i) (candidates is))

extract_addr-FirstPrivate : (n : Net) (xs : List Addr) → FirstPrivate n xs (extract_addr n xs)
unfolding extract_addr
extract_addr-FirstPrivate n [] = tt
extract_addr-FirstPrivate n (x ∷ xs) = elim (Option-cases (ip_of x)) [
  | inl e ↦
      let p : private_ip n (ip_of x) ≡ none = ap (private_ip n) e in
      inr (
        p,
        subst (FirstPrivate n xs) (sym (ap (λ o. or_else o (extract_addr n xs)) p))
            (extract_addr-FirstPrivate n xs),
      )
  | inr (ip, e) ↦ elim (Bool-cases (is_private_ip n.parse_ip (n.ip_string ip))) [
    | inl y ↦
        let p : private_ip n (ip_of x) ≡ some ip =
          ap (private_ip n) e ∙ ap (λ b. if b then some ip else none) y in
        inl (ip, e, y, ap (λ o. or_else o (extract_addr n xs)) p)
    | inr q ↦
        let p : private_ip n (ip_of x) ≡ none =
          ap (private_ip n) e ∙ ap (λ b. if b then some ip else none) q in
        inr (
          p,
          subst (FirstPrivate n xs) (sym (ap (λ o. or_else o (extract_addr n xs)) p))
              (extract_addr-FirstPrivate n xs),
        )
  ]
]

-- What `Extract` gives, by what the text splits into and the interfaces of the host.
abbrev pub Extracts : Net → Option (Text × Text) → Option (List Interface) → IpError ⊎ Text → Type 0
Extracts n none is r = r ≡ inl invalid_host_port
Extracts n (some (addr, port)) none r =
    if is_specific addr then r ≡ inr (n.join_host_port addr port) else r ≡ inl interface_lookup
Extracts n (some (addr, port)) (some is) r =
    if is_specific addr
    then r ≡ inr (n.join_host_port addr port)
    else (found : Option (List ℕ)) × FirstPrivate n (candidates is) found
      × (r ≡ joined n port found)

extracted-Extracts :
    (n : Net) (o : Option (Text × Text)) (is : Option (List Interface))
    → n.interfaces ≡ is
    → Extracts n o is (extracted n o)
extracted-Extracts n none is e = refl
extracted-Extracts n (some (addr, port)) none e = elim (Bool-cases (is_specific addr)) [
  | inl y ↦ rw (y, extracted) refl
  | inr q ↦ rw (q, extracted) (ap (from_interfaces n port) e)
]
extracted-Extracts n (some (addr, port)) (some is) e = elim (Bool-cases (is_specific addr)) [
  | inl y ↦ rw (y, extracted) refl
  | inr q ↦
      rw (q, extracted)
        (
          extract_addr n (candidates is),
          extract_addr-FirstPrivate n (candidates is),
          ap (from_interfaces n port) e ∙ ap (joined n port) (extract_interface-candidates n is),
        )
]

-- `Extract` returns an error for a text that is no host and port, and the host and port themselves where
-- the host is given and no placeholder. Else it returns an error where the interfaces of the host are
-- not known; and otherwise the first address that is in a private range, of the interfaces in their
-- order that are up, no loopback, and give their addresses, with the port, or the error for none.
pub extract-Extracts :
    (n : Net) (host_port : Text)
    → Extracts n (n.split_host_port host_port) n.interfaces (extract n host_port)
unfolding extract
extract-Extracts n host_port = extracted-Extracts n (n.split_host_port host_port) n.interfaces refl
