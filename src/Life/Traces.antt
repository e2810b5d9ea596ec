-- ===== src/Life/Traces.antt =====
-- internal/worker.go: the buffers of the codec on every path of `handshake` and `read`, and who is
-- connected.
use fabrica_net.Base.{
  ℕ, Bool, true, false, Option, none, some, List, [], ◌∷◌, Option-cases, Bool-cases, inl, inr, ◌≡◌,
  refl, sym, ap, subst, ◌∙◌,
}
use fabrica_net.Session.{Session, encrypt, decrypt}
use fabrica_net.Life.{
  Event, sets_deadline, decodes, authenticates, handles, encodes, frees, WorkerError, Answers,
  after_decode, handshake, connect, start, after_read, read, write, auth_failed, encode_failed,
  deadline_failed, decode_failed,
}

-- A trace that holds no buffer at its end: each buffer that it decodes into it frees later, once, and
-- it frees no other. The argument is the buffer held.
abbrev pub Balanced : Option ℕ → List Event → Type 0
Balanced none [] = Unit
Balanced (some b) [] = ⊥
Balanced none (decodes b ∷ t) = Balanced (some b) t
Balanced (some b) (decodes c ∷ t) = ⊥
Balanced none (frees b ∷ t) = ⊥
Balanced (some b) (frees c ∷ t) = (b ≡ c) × Balanced none t
Balanced o (sets_deadline ∷ t) = Balanced o t
Balanced o (authenticates p ∷ t) = Balanced o t
Balanced o (handles p ∷ t) = Balanced o t
Balanced o (encodes p ∷ t) = Balanced o t

after_decode-Balanced :
    (e : Answers) (s : Session) (p : List ℕ) (buf : ℕ)
    → Balanced (some buf) (after_decode e s (p, buf)).2
unfolding after_decode
after_decode-Balanced e s p buf = elim (Option-cases (e.auth p)) [
  | inl a ↦ rw (a, after_decode) (refl, tt)
  | inr ((out, ss), a) ↦ elim (Bool-cases (e.encoded out)) [
    | inl y ↦ rw (a, after_decode, y) (refl, tt)
    | inr n ↦ rw (a, after_decode, n) (refl, tt)
  ]
]

after_read-Balanced :
    (e : Answers) (s : Session) (p : List ℕ) (buf : ℕ)
    → Balanced (some buf) (after_read e s (p, buf)).1
unfolding after_read
after_read-Balanced e s p buf = elim (Option-cases (decrypt s.cryptor p)) [
  | inl a ↦ rw (a, after_read) (refl, tt)
  | inr (plain, a) ↦ rw (a, after_read) (refl, tt)
]

handshake-Balanced : (e : Answers) (s : Session) → Balanced none (handshake e s).2
unfolding handshake
handshake-Balanced e s = elim (Bool-cases e.deadline) [
  | inr n ↦ rw (n, handshake) tt
  | inl y ↦ elim (Option-cases e.decoded) [
    | inl a ↦ rw (y, handshake, a) tt
    | inr ((p, buf), a) ↦ rw (y, handshake, a) (after_decode-Balanced e s p buf)
  ]
]

connect-trace :
    (e : Answers) (r : Option WorkerError × Session × List Event) → (connect e r).2 ≡ r.2
connect-trace e (some err, s, t) = refl
connect-trace e (none, s, t) = elim (Bool-cases (e.on_connected s)) [
  | inl y ↦ rw y refl
  | inr n ↦ rw n refl
]

-- On every path of `Start`, and of `read`, whatever the connection, the codec, the service, the cipher
-- and the filters answer, a buffer that the codec has decoded a packet into is given back once, after
-- the service has had the packet, and no other buffer is given back.
pub worker-Balanced :
    (e : Answers) (stopping : Bool) (s : Session)
    → Balanced none (start e s).2 × Balanced none (read e stopping s).1
unfolding start read
worker-Balanced e stopping s = (
  subst (Balanced none) (sym (connect-trace e (handshake e s))) (handshake-Balanced e s),
  elim (Bool-cases stopping) [
    | inl y ↦ rw (y, read) tt
    | inr y ↦ elim (Bool-cases e.deadline) [
      | inr n ↦ rw (y, read, n) tt
      | inl n ↦ elim (Option-cases e.decoded) [
        | inl a ↦ rw (y, read, n, a) tt
        | inr ((p, buf), a) ↦ rw (y, read, n, a) (after_read-Balanced e s p buf)
      ]
    ]
  ],
)

-- What a successful handshake needed, and leaves.
abbrev pub ShakesHands : Answers → Session → Type 0
ShakesHands e s' =
    (p : List ℕ) × (buf : ℕ) × (out : List ℕ) × (ss : Session) × (e.decoded ≡ some (p, buf))
    × (e.auth p ≡ some (out, ss))
    × (e.encoded out ≡ true)
    × (s' ≡ record ss { client_ip = e.remote_addr })

after_decode-ok :
    (e : Answers) (s : Session) (p : List ℕ) (buf : ℕ)
    → (after_decode e s (p, buf)).0 ≡ none
    → (out : List ℕ) × (ss : Session) × (e.auth p ≡ some (out, ss))
      × (e.encoded out ≡ true)
      × ((after_decode e s (p, buf)).1 ≡ record ss { client_ip = e.remote_addr })
unfolding after_decode
after_decode-ok e s p buf q = elim (Option-cases (e.auth p)) [
  | inl a ↦
      let r : (after_decode e s (p, buf)).0 ≡ some auth_failed = rw (a, after_decode) refl in
      absurd (let z : none ≡ some auth_failed = sym q ∙ r in cc)
  | inr ((out, ss), a) ↦ elim (Bool-cases (e.encoded out)) [
    | inl y ↦ (out, ss, a, y, rw (a, after_decode, y) refl)
    | inr n ↦
        let r : (after_decode e s (p, buf)).0 ≡ some encode_failed = rw (a, after_decode, n) refl in
        absurd (let z : none ≡ some encode_failed = sym q ∙ r in cc)
  ]
]

handshake-ok :
    (e : Answers) (s : Session) → (handshake e s).0 ≡ none → ShakesHands e (handshake e s).1
unfolding handshake
handshake-ok e s q = elim (Bool-cases e.deadline) [
  | inr n ↦
      let r : (handshake e s).0 ≡ some deadline_failed = rw (n, handshake) refl in
      absurd (let z : none ≡ some deadline_failed = sym q ∙ r in cc)
  | inl y ↦ elim (Option-cases e.decoded) [
    | inl a ↦
        let r : (handshake e s).0 ≡ some decode_failed = rw (y, handshake, a) refl in
        absurd (let z : none ≡ some decode_failed = sym q ∙ r in cc)
    | inr ((p, buf), a) ↦
        let r : (handshake e s).0 ≡ (after_decode e s (p, buf)).0 = rw (y, handshake, a) refl in
        let r' : (handshake e s).1 ≡ (after_decode e s (p, buf)).1 = rw (y, handshake, a) refl in
        let (out, ss, auth, sent, left) = after_decode-ok e s p buf (sym r ∙ q) in
        (p, buf, out, ss, a, auth, sent, r' ∙ left)
  ]
]

connect-ok :
    (e : Answers) (r : Option WorkerError × Session × List Event)
    → (connect e r).1.1 ≡ true
    → (r.0 ≡ none)
      × ((connect e r).0 ≡ none)
      × ((connect e r).1.0 ≡ r.1)
      × (e.on_connected r.1 ≡ true)
connect-ok e (some err, s, t) q = absurd (let z : false ≡ true = q in cc)
connect-ok e (none, s, t) q = elim (Bool-cases (e.on_connected s)) [
  | inl y ↦ rw y (refl, refl, refl, refl)
  | inr n ↦
      let r : (connect e (none, s, t)).1.1 ≡ false = rw n refl in
      absurd (let z : false ≡ true = sym r ∙ q in cc)
]

-- A worker is connected after `Start` only if `Start` returned no error: then a packet came, the
-- service accepted it and its answer was sent, the worker's session is the one that the service gave,
-- with the address of the connection, and the service has accepted the connection with that session.
pub connected_shook_hands :
    (e : Answers) (s : Session)
    → (start e s).1.1 ≡ true
    → ((start e s).0 ≡ none)
      × ShakesHands e (start e s).1.0
      × (e.on_connected (start e s).1.0 ≡ true)
unfolding start
connected_shook_hands e s q =
    let (fine, none_left, same, on) = connect-ok e (handshake e s) q in
    (
      none_left,
      subst (ShakesHands e) (sym same) (handshake-ok e s fine),
      ap e.on_connected same ∙ on,
    )

pub write-sent :
    (e : Answers) (s : Session) (p c : List ℕ)
    → e.write_filter p ≡ some p
    → encrypt s.cryptor p ≡ some c
    → e.encoded c ≡ true
    → write e s p ≡ (none, encodes c ∷ [])
unfolding write
write-sent e s p c f g h = rw (write, f, g, h) refl
