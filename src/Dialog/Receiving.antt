-- ===== src/Dialog/Receiving.antt =====
-- internal/dialog.go: the buffers and the packets of `receiveLoop`.
use fabrica_net.Base.{
  ℕ, false, Option, none, some, List, [], ◌∷◌, map, ◌⊎◌, Option-cases, Bool-cases, inl, inr, ◌≡◌,
  refl, ap,
}
use fabrica_net.Session.{Session, decrypt}
use fabrica_net.Dialog.{
  Event, encodes, decodes, delivers, frees, closes_authed, closes_received, closes_conn,
  DialogError, Turn, Choice, takes_stop, takes_done, takes_default, receive, turn, receive_loop,
  nil_session, decrypt_failed, closed_chan, stop_triggered, context_done, decode_failed,
}

-- What a trace says of the buffers and the packets.
abbrev pub decoded_bufs : List Event → List ℕ
decoded_bufs [] = []
decoded_bufs (decodes p b ∷ t) = b ∷ decoded_bufs t
decoded_bufs (encodes p ∷ t) = decoded_bufs t
decoded_bufs (delivers p ∷ t) = decoded_bufs t
decoded_bufs (frees b ∷ t) = decoded_bufs t
decoded_bufs (closes_authed ∷ t) = decoded_bufs t
decoded_bufs (closes_received ∷ t) = decoded_bufs t
decoded_bufs (closes_conn ∷ t) = decoded_bufs t

abbrev pub freed_bufs : List Event → List ℕ
freed_bufs [] = []
freed_bufs (frees b ∷ t) = b ∷ freed_bufs t
freed_bufs (encodes p ∷ t) = freed_bufs t
freed_bufs (decodes p b ∷ t) = freed_bufs t
freed_bufs (delivers p ∷ t) = freed_bufs t
freed_bufs (closes_authed ∷ t) = freed_bufs t
freed_bufs (closes_received ∷ t) = freed_bufs t
freed_bufs (closes_conn ∷ t) = freed_bufs t

abbrev pub decoded_packs : List Event → List (List ℕ)
decoded_packs [] = []
decoded_packs (decodes p b ∷ t) = p ∷ decoded_packs t
decoded_packs (encodes p ∷ t) = decoded_packs t
decoded_packs (delivers p ∷ t) = decoded_packs t
decoded_packs (frees b ∷ t) = decoded_packs t
decoded_packs (closes_authed ∷ t) = decoded_packs t
decoded_packs (closes_received ∷ t) = decoded_packs t
decoded_packs (closes_conn ∷ t) = decoded_packs t

abbrev pub delivered : List Event → List (List ℕ)
delivered [] = []
delivered (delivers p ∷ t) = p ∷ delivered t
delivered (encodes p ∷ t) = delivered t
delivered (decodes p b ∷ t) = delivered t
delivered (frees b ∷ t) = delivered t
delivered (closes_authed ∷ t) = delivered t
delivered (closes_received ∷ t) = delivered t
delivered (closes_conn ∷ t) = delivered t

frees_only :
    (bs : List ℕ)
    → (decoded_bufs (map frees bs) ≡ [])
      × (freed_bufs (map frees bs) ≡ bs)
      × (decoded_packs (map frees bs) ≡ [])
      × (delivered (map frees bs) ≡ [])
frees_only [] = (refl, refl, refl, refl)
frees_only (b ∷ bs) = let (d, f, p, q) = frees_only bs in (d, ap (◌∷◌ b) f, p, q)

-- A turn goes on with a packet delivered, or ends the loop before or behind a decoded packet.
abbrev TurnCases : Option Session → Turn → Type 0
TurnCases s t =
    ((ss : Session) × (p : List ℕ) × (b : ℕ) × (plain : List ℕ) × (s ≡ some ss)
      × (decrypt ss.cryptor p ≡ some plain)
      × (turn s t ≡ (none, decodes p b ∷ delivers plain ∷ [], b ∷ [])))
    ⊎ (((err : DialogError) × (turn s t ≡ (some err, [], [])))
        ⊎ ((err : DialogError) × (p : List ℕ) × (b : ℕ) × (turn s t
              ≡ (some err, decodes p b ∷ [], b ∷ []))))

turn-default :
    (s : Option Session) (t : Turn) (p : List ℕ) (b : ℕ)
    → t.choice ≡ takes_default
    → t.decoded ≡ some (p, b)
    → TurnCases s t
unfolding turn
turn-default none t p b c d = inr (inr (nil_session, p, b, rw (c, turn, d) refl))
turn-default (some s) t p b c d = elim (Option-cases (decrypt s.cryptor p)) [
  | inl e ↦ inr (inr (decrypt_failed, p, b, rw (c, turn, d, receive, e) refl))
  | inr (plain, e) ↦ elim (Bool-cases t.chan_closed) [
    | inl y ↦ inr (inr (closed_chan, p, b, rw (c, turn, d, receive, e, y) refl))
    | inr n ↦ inl (s, p, b, plain, refl, e, rw (c, turn, d, receive, e, n) refl)
  ]
]

Choice-cases : (c : Choice) → (c ≡ takes_stop) ⊎ ((c ≡ takes_done) ⊎ (c ≡ takes_default))
Choice-cases takes_stop = inl refl
Choice-cases takes_done = inr (inl refl)
Choice-cases takes_default = inr (inr refl)

turn_lem : (s : Option Session) (t : Turn) → TurnCases s t
unfolding turn
turn_lem s t = elim (Choice-cases t.choice) [
  | inl c ↦ inr (inl (stop_triggered, rw (c, turn) refl))
  | inr (inl c) ↦ inr (inl (context_done, rw (c, turn) refl))
  | inr (inr c) ↦ elim (Option-cases t.decoded) [
    | inl d ↦ inr (inl (decode_failed, rw (c, turn, d) refl))
    | inr ((p, b), d) ↦ turn-default s t p b c d
  ]
]

-- The entries of a list, the last first, before others.
abbrev pub reverse_onto {ℓ} : {A : Type ℓ} → List A → List A → List A
reverse_onto [] ys = ys
reverse_onto (x ∷ xs) ys = reverse_onto xs (x ∷ ys)

-- The buffers of a trace: held while the loop goes on, given back when it has ended.
abbrev pub Frees : List ℕ → Option DialogError → List Event → Type 0
Frees deferred none t = freed_bufs t ≡ []
Frees deferred (some err) t = freed_bufs t ≡ reverse_onto (decoded_bufs t) deferred

receive_then-Frees :
    (r : Option DialogError × List Event) (deferred : List ℕ) (p plain : List ℕ) (b : ℕ)
    → Frees (b ∷ deferred) r.0 r.1
    → Frees deferred r.0 (decodes p b ∷ delivers plain ∷ r.1)
receive_then-Frees (none, t) deferred p plain b h = h
receive_then-Frees (some err, t) deferred p plain b h = h

-- While `receiveLoop` goes on it gives no buffer back, however many packets it has decoded; when it has
-- ended, on every path, it has given back each buffer of a packet that it decoded once, the last first,
-- and no other. The deferred buffers are those of earlier turns.
pub receive_loop-Frees :
    (s : Option Session) (ts : List Turn) (deferred : List ℕ)
    → Frees deferred (receive_loop s ts deferred).0 (receive_loop s ts deferred).1
unfolding receive_loop
receive_loop-Frees s [] deferred = refl
receive_loop-Frees s (t ∷ ts) deferred = elim (turn_lem s t) [
  | inl (ss, p, b, plain, hs, hp, e) ↦
      rw (receive_loop, e)
        (receive_then-Frees (receive_loop s ts (b ∷ deferred)) deferred p plain b
          (receive_loop-Frees s ts (b ∷ deferred)))
  | inr (inl (err, e)) ↦ rw (receive_loop, e, (frees_only deferred).1, (frees_only deferred).0) refl
  | inr (inr (err, p, b, e)) ↦
      rw (receive_loop, e, (frees_only deferred).1, (frees_only deferred).0) refl
]

-- The packets delivered against those decoded: each the decryption of its own, in order, and at the end
-- of the loop there may be one packet more that was not delivered.
abbrev pub Delivers : Option Session → Option DialogError → List (List ℕ) → List (List ℕ) → Type 0
Delivers s err [] [] = Unit
Delivers s none (p ∷ ps) [] = ⊥
Delivers s (some err) (p ∷ []) [] = Unit
Delivers s (some err) (p ∷ q ∷ ps) [] = ⊥
Delivers s err [] (plain ∷ qs) = ⊥
Delivers s err (p ∷ ps) (plain ∷ qs) =
    ((ss : Session) × (s ≡ some ss) × (decrypt ss.cryptor p ≡ some plain)) × Delivers s err ps qs

receive_then-Delivers :
    (s : Option Session) (ss : Session) (r : Option DialogError × List Event) (p plain : List ℕ)
    (b : ℕ)
    → s ≡ some ss
    → decrypt ss.cryptor p ≡ some plain
    → Delivers s r.0 (decoded_packs r.1) (delivered r.1)
    → Delivers s r.0
        (decoded_packs (decodes p b ∷ delivers plain ∷ r.1))
        (delivered (decodes p b ∷ delivers plain ∷ r.1))
receive_then-Delivers s ss (none, t) p plain b hs hp h = ((ss, hs, hp), h)
receive_then-Delivers s ss (some err, t) p plain b hs hp h = ((ss, hs, hp), h)

-- `receiveLoop` delivers the packets that the codec has decoded in their order, each decrypted by the
-- dialog's session; while it goes on it has delivered all of them, and when it has ended all but at most
-- the last one. With a nil session it delivers none.
pub receive_loop-Delivers :
    (s : Option Session) (ts : List Turn) (deferred : List ℕ)
    → let r = receive_loop s ts deferred in Delivers s r.0 (decoded_packs r.1) (delivered r.1)
unfolding receive_loop
receive_loop-Delivers s [] deferred = tt
receive_loop-Delivers s (t ∷ ts) deferred = elim (turn_lem s t) [
  | inl (ss, p, b, plain, hs, hp, e) ↦
      rw (receive_loop, e)
        (receive_then-Delivers s ss (receive_loop s ts (b ∷ deferred)) p plain b hs hp
          (receive_loop-Delivers s ts (b ∷ deferred)))
  | inr (inl (err, e)) ↦ rw (receive_loop, e, (frees_only deferred).2, (frees_only deferred).3) tt
  | inr (inr (err, p, b, e)) ↦
      rw (receive_loop, e, (frees_only deferred).2, (frees_only deferred).3) tt
]

-- A turn in which a packet arrives that the session opens.
pub receive_loop-arrived :
    (s : Session) (c p : List ℕ) (b : ℕ) (ts : List Turn) (deferred : List ℕ)
    → decrypt s.cryptor c ≡ some p
    → let r = receive_loop (some s) ts (b ∷ deferred) in
      receive_loop
        (some s)
        (record { choice = takes_default; decoded = some (c, b); chan_closed = false } ∷ ts)
        deferred
      ≡ (r.0, decodes c b ∷ delivers p ∷ r.1)
unfolding receive_loop turn
receive_loop-arrived s c p b ts deferred h = rw (receive_loop, receive, h) refl
