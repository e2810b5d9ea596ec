-- ===== src/Client/Dialogs.antt =====
-- internal/client.go: which dialogs a client has once it has started.
use fabrica_net.Base.{
  ℕ, zero, suc, ◌+◌, ◌≤◌, ◌<◌, Bool, true, false, ◌&&◌, none, some, List, [], ◌∷◌, ◌++◌,
  if◌then◌else◌, ◌==◌, leb, ltb, ℤ, pos_part, Bool-cases, inl, inr, ◌≡◌, ◌∙◌, refl, sym, ap, subst,
  ==_iff, arith,
}
use mathlib.Core.List.{append-nil, append_assoc}
use fabrica_net.Net.{dialog_id}
use fabrica_net.Net.Ids.{dialog_id_inj}
use fabrica_net.Dialog.{Dialog, new_dialog}
use fabrica_net.Workers.{Key, uint64_key, load, store}
use fabrica_net.Workers.Maps.{load-store}
use fabrica_net.Client.Dial.{kcp_dial_tests}
use fabrica_net.Client.{
  Event, opens, configures, stream, socket, smux_session, Network, Carrier, Dialed, Dialer,
  open_streams, dialed_streams, traced, kcp_dial, new_base_client, store_dialogs, start, dialog,
}

abbrev has : ℕ → List ℕ → Bool
has k [] = false
has k (x ∷ xs) = if x == k then true else has k xs

abbrev ids : List Carrier → List ℕ
ids [] = []
ids (c ∷ cs) = c.id ∷ ids cs

load-store_dialogs :
    (k : ℕ) (cid now : ℤ) (cs : List Carrier) (m : List (Key × Dialog))
    → load (uint64_key k) (store_dialogs cid now cs m)
      ≡ (if has k (ids cs) then some (new_dialog k cid now) else load (uint64_key k) m)
load-store_dialogs k cid now [] m = refl
load-store_dialogs k cid now (c ∷ cs) m =
    load-store_dialogs k cid now cs (store (uint64_key c.id) (new_dialog c.id cid now) m)
    ∙ elim (Bool-cases (has k (ids cs))) [
      | inl h ↦ elim (Bool-cases (c.id == k)) [ inl e ↦ rw (h, e) refl | inr e ↦ rw (h, e) refl ]
      | inr h ↦
          rw (h, load-store (uint64_key c.id) (uint64_key k) (new_dialog c.id cid now) m)
            (elim (Bool-cases (c.id == k)) [
              | inl e ↦
                  let same : c.id ≡ k = (==_iff c.id k).0 e in
                  rw e (ap (λ i. some (new_dialog i cid now)) same)
              | inr e ↦ rw e refl
            ])
    ]

abbrev ids_from : ℤ → ℕ → ℕ → List ℕ
ids_from cid i zero = []
ids_from cid i (suc n) = dialog_id cid i ∷ ids_from cid (suc i) n

dialog_id_eq :
    (cid : ℤ) (i j : ℕ) → i < 100 → j < 100 → (dialog_id cid i == dialog_id cid j) ≡ (i == j)
dialog_id_eq cid i j hi hj = elim (Bool-cases (i == j)) [
  | inl e ↦ let same : i ≡ j = (==_iff i j).0 e in rw same (ground arith)
  | inr e ↦ elim (Bool-cases (dialog_id cid i == dialog_id cid j)) [
    | inl e' ↦
        let same : i ≡ j =
          dialog_id_inj cid i j hi hj ((==_iff (dialog_id cid i) (dialog_id cid j)).0 e') in
        absurd (ground arith)
    | inr e' ↦ e' ∙ sym e
  ]
]

has-ids_from :
    (cid : ℤ) (n i j : ℕ)
    → i + n ≤ 100
    → j < 100
    → has (dialog_id cid j) (ids_from cid i n) ≡ (leb i j && ltb j (i + n))
has-ids_from cid zero i j h hj = ground arith
has-ids_from cid (suc n) i j h hj =
    let e = dialog_id_eq cid i j (omega arith) hj in
    let ih = has-ids_from cid n (suc i) j (omega arith) hj in rw (e, ih) (ground arith)

ids-snoc : (cs : List Carrier) (c : Carrier) → ids (cs ++ c ∷ []) ≡ ids cs ++ c.id ∷ []
ids-snoc [] c = refl
ids-snoc (x ∷ cs) c = ap (◌∷◌ x.id) (ids-snoc cs c)

-- The ids of the carriers of a dial that returns no error.
abbrev IdsOf : List ℕ → Dialed → Type 0
IdsOf expected (none, carriers, t) = ids carriers ≡ expected
IdsOf expected (some err, carriers, t) = Unit

traced-IdsOf :
    (expected : List ℕ) (r : Dialed) (t : List Event)
    → IdsOf expected r
    → IdsOf expected (r.0, r.1, t)
traced-IdsOf expected (none, carriers, _) t h = h
traced-IdsOf expected (some err, carriers, _) t h = tt

open_streams-IdsOf :
    (n i : ℕ) (cid : ℤ) (net : Network) (carriers : List Carrier)
    → IdsOf (ids carriers ++ ids_from cid i n) (open_streams n i cid net carriers)
unfolding open_streams
open_streams-IdsOf zero i cid net carriers = sym (append-nil (ids carriers))
open_streams-IdsOf (suc n) i cid net carriers =
    let id = dialog_id cid i in
    let c : Carrier = record { id = id; conn = stream id } in
    let same : ids (carriers ++ c ∷ []) ++ ids_from cid (suc i) n
        ≡ ids carriers ++ ids_from cid i (suc n) =
      ap (λ l. l ++ ids_from cid (suc i) n) (ids-snoc carriers c)
      ∙ append_assoc (ids carriers) (id ∷ []) (ids_from cid (suc i) n) in
    elim (Bool-cases (net.opens_stream i)) [
      | inl o ↦
          rw (open_streams, o)
            (traced-IdsOf _ (open_streams n (suc i) cid net (carriers ++ c ∷ [])) _ (
              subst (λ l. IdsOf l (open_streams n (suc i) cid net (carriers ++ c ∷ []))) same
                (open_streams-IdsOf n (suc i) cid net (carriers ++ c ∷ []))))
      | inr q ↦ rw (open_streams, q) tt
    ]

dialed_streams-IdsOf :
    (expected : List ℕ) (before : List Event) (r : Dialed)
    → IdsOf expected r
    → IdsOf expected (traced before (dialed_streams r))
dialed_streams-IdsOf expected before (none, carriers, t) h = h
dialed_streams-IdsOf expected before (some err, carriers, t) h = tt

abbrev kcp_ids : Bool → ℤ → ℕ → List ℕ
kcp_ids smux cid n = if smux then ids_from cid 1 n else dialog_id cid 0 ∷ []

kcp_dial-IdsOf :
    (d : Dialer) (n : Network)
    → IdsOf (kcp_ids d.conf.smux d.cli_id (pos_part d.conf.smux_stream_size)) (kcp_dial d n).0
kcp_dial-IdsOf d n =
    let size = pos_part d.conf.smux_stream_size in
    kcp_dial_tests (λ c smux m. IdsOf (kcp_ids smux d.cli_id size)) d n
      (dialed_streams-IdsOf (kcp_ids true d.cli_id size)
        (opens socket ∷ configures d.conf ∷ opens smux_session ∷ [])
        (open_streams size 1 d.cli_id n []) (open_streams-IdsOf size 1 d.cli_id n []))
      tt (λ m. refl) (λ s m. tt)

-- The indices of the dialogs of a KCP client.
abbrev pub is_dialed : Bool → ℕ → ℕ → Bool
is_dialed smux n j = if smux then leb 1 j && leb j n else j == 0

has-kcp_ids :
    (smux : Bool) (cid : ℤ) (n j : ℕ)
    → n < 100
    → j < 100
    → has (dialog_id cid j) (kcp_ids smux cid n) ≡ is_dialed smux n j
has-kcp_ids true cid n j h hj = has-ids_from cid n 1 j (omega arith) hj ∙ ground arith
has-kcp_ids false cid n j h hj = rw (dialog_id_eq cid 0 j (omega arith) hj) (ground arith)

-- The lookups of a client that a dial has started.
abbrev pub HasDialogs : ℤ → ℤ → ℕ → Bool → Dialed → Type 0
HasDialogs cid now j found (none, carriers, t) =
    dialog (start now (new_base_client cid) (none, carriers, t)).1 (dialog_id cid j)
    ≡ (if found then some (new_dialog (dialog_id cid j) cid now) else none)
HasDialogs cid now j found (some err, carriers, t) =
    dialog (start now (new_base_client cid) (some err, carriers, t)).1 (dialog_id cid j) ≡ none

IdsOf→HasDialogs :
    (cid now : ℤ) (j : ℕ) (found : Bool) (expected : List ℕ) (r : Dialed)
    → has (dialog_id cid j) expected ≡ found
    → IdsOf expected r
    → HasDialogs cid now j found r
unfolding dialog start new_base_client
IdsOf→HasDialogs cid now j found expected (none, carriers, t) h e =
    load-store_dialogs (dialog_id cid j) cid now carriers []
    ∙ ap (λ b. if b then some (new_dialog (dialog_id cid j) cid now) else none)
        (ap (has (dialog_id cid j)) e ∙ h)
IdsOf→HasDialogs cid now j found expected (some err, carriers, t) h e = refl

-- A new KCP client that its dialer has connected has just these dialogs of the ids `DialogID(id, j)`,
-- for fewer than 100 streams: with smux those of the indices from 1 to the number of streams, without
-- smux that of the index 0. One whose dial returned an error has none.
pub kcp_dial-HasDialogs :
    (d : Dialer) (n : Network) (now : ℤ) (j : ℕ)
    → pos_part d.conf.smux_stream_size < 100
    → j < 100
    → HasDialogs d.cli_id now j
        (is_dialed d.conf.smux (pos_part d.conf.smux_stream_size) j)
        (kcp_dial d n).0
kcp_dial-HasDialogs d n now j h hj =
    IdsOf→HasDialogs d.cli_id now j _
      (kcp_ids d.conf.smux d.cli_id (pos_part d.conf.smux_stream_size)) (kcp_dial d n).0
      (has-kcp_ids d.conf.smux d.cli_id (pos_part d.conf.smux_stream_size) j h hj)
      (kcp_dial-IdsOf d n)
