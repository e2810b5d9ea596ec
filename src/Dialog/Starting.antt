-- ===== src/Dialog/Starting.antt =====
-- internal/dialog.go: what `start` does on every path of the handshake.
use fabrica_net.Base.{
  ℕ, true, false, Option, none, some, List, [], ◌∷◌, Option-cases, Bool-cases, ◌⊎◌, inl, inr, ◌≡◌,
  ◌↔◌, refl, sym, ap, subst, ◌∙◌,
}
use fabrica_net.Session.{Session, encrypt}
use fabrica_net.Dialog.{
  Event, encodes, decodes, frees, closes_authed, DialogError, Dialog, Answers, send, after_decode,
  handshake, start, is_stopped, encrypt_failed, encode_failed, decode_failed, auth_failed,
  nil_session, no_handshake_pack,
}
use fabrica_net.Dialog.Receiving.{decoded_bufs, freed_bufs}

-- A packet is sealed by the dialog's session and sent.
abbrev pub Sends : Answers → Dialog → List ℕ → List ℕ → Type 0
Sends e d pack out =
    (s : Session) × (d.stopping ≡ false)
    × (d.session ≡ some s)
    × (encrypt s.cryptor pack ≡ some out)
    × (e.encoded out ≡ true)

send_lem :
    (e : Answers) (d : Dialog) (pack : List ℕ)
    → ((out : List ℕ) × Sends e d pack out × (send e d pack ≡ (none, encodes out ∷ [])))
      ⊎ ((err : DialogError) × (t : List Event) × (send e d pack ≡ (some err, t))
          × (decoded_bufs t ≡ [])
          × (freed_bufs t ≡ []))
unfolding send
send_lem e d pack = elim (Bool-cases d.stopping) [
  | inl y ↦ inr (is_stopped, [], rw (send, y) refl, refl, refl)
  | inr n ↦ elim (Option-cases d.session) [
    | inl m ↦ inr (nil_session, [], rw (send, n, m) refl, refl, refl)
    | inr (s, m) ↦ elim (Option-cases (encrypt s.cryptor pack)) [
      | inl c ↦ inr (encrypt_failed, [], rw (send, n, m, c) refl, refl, refl)
      | inr (out, c) ↦ elim (Bool-cases (e.encoded out)) [
        | inl o ↦ inl (out, (s, n, m, c, o), rw (send, n, m, c, o) refl)
        | inr o ↦ inr (encode_failed, encodes out ∷ [], rw (send, n, m, c, o) refl, refl, refl)
      ]
    ]
  ]
]

-- A handshake that succeeds, from the packet of the client to the session of `authFunc`.
abbrev pub ShakesHands : Answers → Dialog → Type 0
ShakesHands e d =
    (pack : List ℕ) × (out : List ℕ) × (reply : List ℕ) × (buf : ℕ) × (e.handshake_pack d.id
      ≡ some pack)
    × Sends e d pack out
    × (e.decoded ≡ some (reply, buf))
    × ((e.auth reply).1 ≡ true)

-- Both ways in which `start` can go up to the loop.
abbrev pub Starts : Answers → Dialog → Type 0
Starts e d =
    ((pack : List ℕ) × (out : List ℕ) × (reply : List ℕ) × (buf : ℕ) × (e.handshake_pack d.id
        ≡ some pack)
      × Sends e d pack out
      × (e.decoded ≡ some (reply, buf))
      × ((e.auth reply).1 ≡ true)
      × (start e d ≡ (
        none,
        record d { session = (e.auth reply).0; authed = true },
        encodes out ∷ decodes reply buf ∷ frees buf ∷ closes_authed ∷ [],
      )))
    ⊎ ((err : DialogError) × (d' : Dialog) × (t : List Event) × (start e d ≡ (some err, d', t))
        × (d'.authed ≡ d.authed)
        × (freed_bufs t ≡ decoded_bufs t))

start-Starts : (e : Answers) (d : Dialog) → Starts e d
unfolding start handshake after_decode
start-Starts e d = elim (Option-cases (e.handshake_pack d.id)) [
  | inl a ↦ inr (no_handshake_pack, d, [], rw (start, a) refl, refl, refl)
  | inr (pack, a) ↦ elim (send_lem e d pack) [
    | inr (err, t, q, dec, fr) ↦
        inr (err, d, t, rw (start, a, handshake, q) refl, refl, fr ∙ sym dec)
    | inl (out, s, q) ↦ elim (Option-cases e.decoded) [
      | inl b ↦
          inr (decode_failed, d, encodes out ∷ [], rw (start, a, handshake, q, b) refl, refl, refl)
      | inr ((reply, buf), b) ↦ elim (Bool-cases (e.auth reply).1) [
        | inl ok ↦ inl (
          pack,
          out,
          reply,
          buf,
          a,
          s,
          b,
          ok,
          rw (start, a, handshake, q, b, after_decode, ok) refl,
        )
        | inr ko ↦ inr (
          auth_failed,
          record d { session = (e.auth reply).0 },
          encodes out ∷ decodes reply buf ∷ frees buf ∷ [],
          rw (start, a, handshake, q, b, after_decode, ko) refl,
          refl,
          refl,
        )
      ]
    ]
  ]
]

handshake_enough :
    (e : Answers) (d : Dialog)
    → ShakesHands e d
    → ((start e d).0 ≡ none) × ((start e d).1.authed ≡ true)
unfolding start handshake send after_decode
handshake_enough e d (pack, out, reply, buf, a, (s, n, m, c, o), b, ok) =
    rw (start, a, handshake, send, n, m, c, o, b, after_decode, ok) (refl, refl)

-- The buffers that `start` decodes into and gives back, and when it closes `authed`.
abbrev pub AuthedBy : Answers → Dialog → Option DialogError × Dialog × List Event → Type 0
AuthedBy e d (err, d', t) =
    ((d'.authed ≡ true) ↔ ShakesHands e d)
    × ((err ≡ none) ↔ ShakesHands e d)
    × (freed_bufs t ≡ decoded_bufs t)

start_succeeds :
    (e : Answers) (d d' : Dialog) (t : List Event)
    → ShakesHands e d
    → d'.authed ≡ true
    → freed_bufs t ≡ decoded_bufs t
    → AuthedBy e d (none, d', t)
start_succeeds e d d' t h a f = ((λ q. h, λ q. a), (λ q. h, λ q. refl), f)

start_fails :
    (e : Answers) (d d' : Dialog) (err : DialogError) (t : List Event)
    → start e d ≡ (some err, d', t)
    → d'.authed ≡ false
    → freed_bufs t ≡ decoded_bufs t
    → AuthedBy e d (some err, d', t)
start_fails e d d' err t q a f = (
  (
    λ y. absurd (let z : true ≡ false = sym y ∙ a in cc),
    λ h. ap (λ r. r.1.authed) (sym q) ∙ (handshake_enough e d h).1,
  ),
  (
    λ y. absurd (let z : some err ≡ none = y in cc),
    λ h. ap (λ r. r.0) (sym q) ∙ (handshake_enough e d h).0,
  ),
  f,
)

-- For a dialog whose `authed` is open, `start` closes it, which ends `WaitAuthed`, if and only if the
-- client's packet was made, sealed and sent, an answer came and `authFunc` accepted it; just then the
-- start goes on to its receiving loop, and on every other path it returns an error and `authed` stays
-- open. On every path the buffers of the handshake are given back in the order they were decoded into.
pub start-AuthedBy : (e : Answers) (d : Dialog) → d.authed ≡ false → AuthedBy e d (start e d)
start-AuthedBy e d fresh = elim (start-Starts e d) [
  | inl (pack, out, reply, buf, a, s, b, ok, q) ↦ subst (AuthedBy e d) (sym q) (
      start_succeeds e d (record d { session = (e.auth reply).0; authed = true })
        (encodes out ∷ decodes reply buf ∷ frees buf ∷ closes_authed ∷ [])
        (pack, out, reply, buf, a, s, b, ok) refl refl)
  | inr (err, d', t, q, same, f) ↦
      subst (AuthedBy e d) (sym q) (start_fails e d d' err t q (same ∙ fresh) f)
]

pub send-stopped :
    (e : Answers) (d : Dialog) (pack : List ℕ)
    → d.stopping ≡ true
    → send e d pack ≡ (some is_stopped, [])
unfolding send
send-stopped e d pack h = rw (send, h) refl
