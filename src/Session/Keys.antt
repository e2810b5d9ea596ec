-- ===== src/Session/Keys.antt =====
-- xnet/ecdh.go: the keys of a session. The functions of the ecdh package are parameters; a key is a list
-- of bytes.
use fabrica_net.Base.{ℕ, Option, none, some, List, ◌≡◌, refl}

pub record EcdhInfo : Type 0 where
  pub self_pri : List ℕ
  pub self_pub : List ℕ
  pub target_pub : List ℕ
  pub shared_key : List ℕ

-- None is an error.
pub record Ecdh : Type 0 where
  pub compute_pub_key : List ℕ → Option (List ℕ)
  pub compute_shared_key : List ℕ → List ℕ → Option (List ℕ)
  pub gen_key_pair : Option (List ℕ × List ℕ)

-- The last call of both constructors, and what they return of it.
abbrev pub with_shared : Ecdh → List ℕ → List ℕ → List ℕ → Option EcdhInfo
with_shared e self_pri self_pub target_pub = elim (e.compute_shared_key self_pri target_pub) [
  | none ↦ none
  | some key ↦ some (record {
    self_pri = self_pri;
    self_pub = self_pub;
    target_pub = target_pub;
    shared_key = key;
  })
]

-- `NewECDHInfo`
pub new_ecdh_info : Ecdh → List ℕ → List ℕ → Option EcdhInfo
new_ecdh_info e self_pri target_pub = elim (e.compute_pub_key self_pri) [
  | none ↦ none
  | some self_pub ↦ with_shared e self_pri self_pub target_pub
]

-- `NewECDHInfoWithGenSelfPair`
pub new_ecdh_info_with_gen_self_pair : Ecdh → List ℕ → Option EcdhInfo
new_ecdh_info_with_gen_self_pair e target_pub = elim e.gen_key_pair [
  | none ↦ none
  | some pair ↦ with_shared e pair.0 pair.1 target_pub
]

-- The public keys and shared key that two ends with private keys hold of each other.
abbrev pub Agree : Option EcdhInfo → Option EcdhInfo → Type 0
Agree (some a) (some b) =
    (a.self_pub ≡ b.target_pub) × (b.self_pub ≡ a.target_pub) × (a.shared_key ≡ b.shared_key)
Agree none _ = ⊥
Agree (some a) none = ⊥

-- Two ends that have each other's public keys agree on the shared key, where the two computations of
-- it from a private and a public key succeed with the same key.
pub new_ecdh_info-Agree :
    (e : Ecdh) (a b pub_a pub_b key : List ℕ)
    → e.compute_pub_key a ≡ some pub_a
    → e.compute_pub_key b ≡ some pub_b
    → e.compute_shared_key a pub_b ≡ some key
    → e.compute_shared_key b pub_a ≡ some key
    → Agree (new_ecdh_info e a pub_b) (new_ecdh_info e b pub_a)
unfolding new_ecdh_info
new_ecdh_info-Agree e a b pub_a pub_b key ha hb ka kb =
    rw (new_ecdh_info, ha, hb, with_shared, ka, kb) (refl, refl, refl)
