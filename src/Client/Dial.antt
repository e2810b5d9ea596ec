-- ===== src/Client/Dial.antt =====
-- kcp/client/dialer.go: what `Dial` leaves open.
use fabrica_net.Base.{
  ℕ, zero, suc, ◌+◌, ◌<◌, Bool, true, false, none, some, List, [], ◌∷◌, ◌++◌, map, if◌then◌else◌,
  ◌==◌, ℤ, pos_part, Bool-cases, ◌⊎◌, inl, inr, ◌≡◌, ◌∙◌, refl, sym, ap, arith,
}
use mathlib.Core.List.{append-nil}
use fabrica_net.Conf.{Kcp}
use fabrica_net.Net.{dialog_id}
use fabrica_net.Client.{
  Resource, socket, smux_session, response_body, stream, Event, opens, closes, configures,
  connect_failed, session_failed, stream_failed, Network, Carrier, Dialed, Dialer, open_streams,
  cleanup, dialed_streams, traced, kcp_dial, dial_streams, no_session, dial_socket,
}

abbrev pub eq_resource : Resource → Resource → Bool
eq_resource socket socket = true
eq_resource smux_session smux_session = true
eq_resource response_body response_body = true
eq_resource (stream a) (stream b) = a == b
eq_resource _ _ = false

-- Whether a trace closes a resource.
abbrev pub closed_in : Resource → List Event → Bool
closed_in r [] = false
closed_in r (closes s ∷ t) = if eq_resource r s then true else closed_in r t
closed_in r (opens s ∷ t) = closed_in r t
closed_in r (configures c ∷ t) = closed_in r t

-- The resources that a trace opens and does not close behind that.
abbrev pub left_open : List Event → List Resource
left_open [] = []
left_open (opens r ∷ t) = if closed_in r t then left_open t else r ∷ left_open t
left_open (closes r ∷ t) = left_open t
left_open (configures c ∷ t) = left_open t

-- So many streams, from the i-th on.
abbrev pub streams : ℤ → ℕ → ℕ → List Resource
streams cid i zero = []
streams cid i (suc k) = stream (dialog_id cid i) ∷ streams cid (suc i) k

abbrev pub opening : List Resource → List Event
opening [] = []
opening (r ∷ rs) = opens r ∷ opening rs

abbrev pub Opens : Network → ℕ → ℕ → Type 0
Opens n i zero = Unit
Opens n i (suc k) = (n.opens_stream i ≡ true) × Opens n (suc i) k

-- How a loop over `n` streams from the i-th on ends: after all of them, or at the one that is refused.
abbrev pub EndsAt : Network → ℤ → ℕ → ℕ → List Carrier → Dialed → Type 0
EndsAt net cid n i carriers (err, all, t) =
    (k : ℕ) × Opens net i k
    × (t ≡ opening (streams cid i k))
    × (((err ≡ none)
          × (k ≡ n)
          × (map (λ (c : Carrier). c.conn) all
              ≡ map (λ (c : Carrier). c.conn) carriers ++ streams cid i n))
        ⊎ ((err ≡ some stream_failed) × (k < n) × (net.opens_stream (i + k) ≡ false)))

conns_snoc :
    (cs : List Carrier) (c : Carrier) (rest : List Resource)
    → map (λ (x : Carrier). x.conn) (cs ++ c ∷ []) ++ rest
      ≡ map (λ (x : Carrier). x.conn) cs ++ (c.conn ∷ rest)
conns_snoc [] c rest = refl
conns_snoc (x ∷ cs) c rest = ap (◌∷◌ x.conn) (conns_snoc cs c rest)

-- One round of the loop that opens a stream, over how the later rounds end.
open_streams-suc :
    (net : Network) (cid : ℤ) (n i : ℕ) (carriers : List Carrier) (r : Dialed)
    → net.opens_stream i ≡ true
    → EndsAt net cid n
        (suc i)
        (carriers ++ record { id = dialog_id cid i; conn = stream (dialog_id cid i) } ∷ [])
        r
    → EndsAt net cid (suc n) i carriers (r.0, r.1, opens (stream (dialog_id cid i)) ∷ r.2)
open_streams-suc net cid n i carriers (err, all, t) o (k, os, e, rest) = (
  suc k,
  (o, os),
  ap (◌∷◌ (opens (stream (dialog_id cid i)))) e,
  elim rest [
    | inl (none_left, done, conns) ↦
        inl (none_left, ap suc done, conns ∙ conns_snoc carriers _ (streams cid (suc i) n))
    | inr (failed, less, refused) ↦
        inr (failed, omega arith, let e' : i + suc k ≡ suc i + k = omega arith in rw e' refused)
  ],
)

open_streams-EndsAt :
    (n i : ℕ) (cid : ℤ) (net : Network) (carriers : List Carrier)
    → EndsAt net cid n i carriers (open_streams n i cid net carriers)
unfolding open_streams
open_streams-EndsAt zero i cid net carriers = (0, tt, refl, inl (refl, refl, sym (append-nil _)))
open_streams-EndsAt (suc n) i cid net carriers =
    let id = dialog_id cid i in
    elim (Bool-cases (net.opens_stream i)) [
      | inl o ↦
          rw (open_streams, o)
            (open_streams-suc net cid n i carriers
              (open_streams n (suc i) cid net
                (carriers ++ record { id = id; conn = stream id } ∷ []))
              o
              (open_streams-EndsAt n (suc i) cid net
                (carriers ++ record { id = id; conn = stream id } ∷ [])))
      | inr q ↦
          rw (open_streams, q)
            (0, tt, refl, inr (refl, omega arith, let e' : i + 0 ≡ i = omega arith in rw e' q))
    ]

closed_in-opening : (r : Resource) (rs : List Resource) → closed_in r (opening rs) ≡ false
closed_in-opening r [] = refl
closed_in-opening r (x ∷ rs) = closed_in-opening r rs

left_open-opening : (rs : List Resource) → left_open (opening rs) ≡ rs
left_open-opening [] = refl
left_open-opening (r ∷ rs) = rw (closed_in-opening r rs) (ap (◌∷◌ r) (left_open-opening rs))

-- What a dial that got its connection returns and leaves open, for a session's streams.
abbrev pub Leaves : Network → ℤ → ℕ → Dialed → Type 0
Leaves net cid n (err, carriers, t) =
    (k : ℕ) × Opens net 1 k
    × (left_open t ≡ socket ∷ smux_session ∷ streams cid 1 k)
    × (((err ≡ none) × (k ≡ n) × (map (λ (c : Carrier). c.conn) carriers ≡ streams cid 1 n))
        ⊎ ((err ≡ some stream_failed)
            × (k < n)
            × (net.opens_stream (1 + k) ≡ false)
            × (carriers ≡ [])))

dialed_streams-Leaves :
    (net : Network) (cid : ℤ) (n : ℕ) (c : Kcp) (r : Dialed)
    → EndsAt net cid n 1 [] r
    → Leaves net cid n
        (traced (opens socket ∷ configures c ∷ opens smux_session ∷ []) (dialed_streams r))
unfolding cleanup
dialed_streams-Leaves net cid n c (none, carriers, t) (k, os, e, inl (q, done, conns)) =
    let same : t ++ [] ≡ opening (streams cid 1 k) = append-nil t ∙ e in
    (
      k,
      os,
      rw
          (
            same,
            closed_in-opening socket (streams cid 1 k),
            closed_in-opening smux_session (streams cid 1 k),
            left_open-opening (streams cid 1 k),
          )
          refl,
      inl (refl, done, conns),
    )
dialed_streams-Leaves net cid n c (none, carriers, t) (k, os, e, inr (q, less, refused)) =
    absurd (let z : none ≡ some stream_failed = q in cc)
dialed_streams-Leaves net cid n c (some err, carriers, t) (k, os, e, inl (q, done, conns)) =
    absurd (let z : some err ≡ none = q in cc)
dialed_streams-Leaves net cid n c (some err, carriers, t) (k, os, e, inr (q, less, refused)) =
    let same : t ++ [] ≡ opening (streams cid 1 k) = append-nil t ∙ e in
    (
      k,
      os,
      rw
          (
            same,
            closed_in-opening socket (streams cid 1 k),
            closed_in-opening smux_session (streams cid 1 k),
            left_open-opening (streams cid 1 k),
          )
          refl,
      inr (q, less, refused, refl),
    )

-- What `Dial` returns and leaves open, by its three tests.
abbrev pub DialLeaves : Dialer → Network → Bool → Bool → Bool → Dialed → Type 0
DialLeaves d n true true true r = Leaves n d.cli_id (pos_part d.conf.smux_stream_size) r
DialLeaves d n true true false (err, carriers, t) =
    (err ≡ some session_failed) × (carriers ≡ []) × (left_open t ≡ [])
DialLeaves d n true false made (err, carriers, t) =
    (err ≡ none)
    × (map (λ (c : Carrier). c.conn) carriers ≡ socket ∷ [])
    × (left_open t ≡ socket ∷ [])
DialLeaves d n false smux made (err, carriers, t) =
    (err ≡ some connect_failed) × (carriers ≡ []) × (left_open t ≡ [])

-- A predicate of the three tests at what `Dial` returns.
pub kcp_dial_tests :
    (P : Bool → Bool → Bool → Dialed → Type 0) (d : Dialer) (n : Network)
    → P true true true (dial_streams d n).0
    → P true true false (no_session d).0
    → ((m : Bool) → P true false m (dial_socket d).0)
    → ((s m : Bool) → P false s m (some connect_failed, [], []))
    → P n.connects d.conf.smux n.makes_session (kcp_dial d n).0
unfolding kcp_dial
kcp_dial_tests P d n p q r s = by_tests n.connects d.conf.smux n.makes_session
  where
    by_tests :
        (c w m : Bool)
        → P c w m
            (if c
              then if w then if m then dial_streams d n else no_session d else dial_socket d
              else ((some connect_failed, [], []), d)).0
    by_tests true true true = p
    by_tests true true false = q
    by_tests true false m = r m
    by_tests false w m = s w m

-- The KCP `Dial` leaves nothing open when the connection or the smux session cannot be made. Without
-- smux it returns its socket, and with smux, when every stream is opened, all of them in order. When a
-- stream is refused it returns an error and no carrier, and leaves open the socket, the session and all
-- the streams opened before: its cleanup does not run.
pub kcp_dial-DialLeaves :
    (d : Dialer) (n : Network)
    → DialLeaves d n n.connects d.conf.smux n.makes_session (kcp_dial d n).0
kcp_dial-DialLeaves d n =
    let size = pos_part d.conf.smux_stream_size in
    kcp_dial_tests (DialLeaves d n) d n
      (dialed_streams-Leaves n d.cli_id size d.conf (open_streams size 1 d.cli_id n [])
        (open_streams-EndsAt size 1 d.cli_id n []))
      (refl, refl, refl) (λ m. (refl, refl, refl)) (λ s m. (refl, refl, refl))
