-- ===== src/Life.antt =====
-- internal/worker.go: what a worker does with one packet, `handshake` and `Start`, `read` and `write`.
-- A run of one of them is a value and the trace of what it did; what the connection, the codec, the
-- service and the filters answer is a parameter.
pub mod Traces
mod Tests
use fabrica_net.Base.{
  ℕ, zero, suc, ◌+◌, Bool, true, false, Option, none, some, List, [], ◌∷◌, ◌++◌, if◌then◌else◌, ◌≡◌,
  ℤ,
}
use fabrica_net.Session.{Session, encrypt, decrypt}

-- A buffer of the codec's pool is a number.
pub data Event : Type 0 where
  sets_deadline : Event
  decodes : (buf : ℕ) → Event  -- a packet, in this buffer
  authenticates : List ℕ → Event
  handles : List ℕ → Event  -- the service, with the read filter around it
  encodes : List ℕ → Event
  frees : (buf : ℕ) → Event

pub data WorkerError : Type 0 where
  is_stopped deadline_failed decode_failed auth_failed encode_failed decrypt_failed : WorkerError
  handle_failed filter_failed encrypt_failed on_connected_failed : WorkerError

pub record Answers : Type 0 where
  pub deadline : Bool
  pub decoded : Option (List ℕ × ℕ)  -- the packet and its buffer
  pub auth : List ℕ → Option (List ℕ × Session)
  pub encoded : List ℕ → Bool
  pub remote_addr : List ℕ
  pub on_connected : Session → Bool
  pub handled : Session → List ℕ → Bool
  pub write_filter : List ℕ → Option (List ℕ)

-- A `nil` error is none.
abbrev pub Run : Type 0 → Type 0
Run A = Option WorkerError × A × List Event

-- The statements of `handshake` behind `defer free()`, and then the free. The session stays if one
-- fails.
pub after_decode : Answers → Session → List ℕ × ℕ → Run Session
after_decode e s (in_pack, buf) = elim (e.auth in_pack) [
  | none ↦ (some auth_failed, s, authenticates in_pack ∷ frees buf ∷ [])
  | some (out, ss) ↦
      if e.encoded out
      then (
        none,
        record ss { client_ip = e.remote_addr },
        authenticates in_pack ∷ encodes out ∷ frees buf ∷ [],
      )
      else (some encode_failed, s, authenticates in_pack ∷ encodes out ∷ frees buf ∷ [])
]

abbrev pub traced {ℓ} :
    {A : Type ℓ}
    → List Event
    → Option WorkerError × A × List Event
    → Option WorkerError × A × List Event
traced before (e, a, t) = (e, a, before ++ t)

pub handshake : Answers → Session → Run Session
unfolding after_decode
handshake e s =
    if e.deadline
    then elim e.decoded [
      | none ↦ (some decode_failed, s, sets_deadline ∷ [])
      | some d ↦ traced (sets_deadline ∷ decodes d.1 ∷ []) (after_decode e s d)
    ]
    else (some deadline_failed, s, sets_deadline ∷ [])

-- `Start`: the session, and whether the worker is connected.
abbrev pub connect : Answers → Run Session → Run (Session × Bool)
connect e (some err, s, t) = (some err, (s, false), t)
connect e (none, s, t) =
    if e.on_connected s then (none, (s, true), t) else (some on_connected_failed, (s, false), t)

pub start : Answers → Session → Run (Session × Bool)
unfolding handshake
start e s = connect e (handshake e s)

-- The statements of `read` behind `defer free()`, and then the free.
pub after_read : Answers → Session → List ℕ × ℕ → Option WorkerError × List Event
after_read e s (p, buf) = elim (decrypt s.cryptor p) [
  | none ↦ (some decrypt_failed, frees buf ∷ [])
  | some plain ↦
      (if e.handled s plain then none else some handle_failed, handles plain ∷ frees buf ∷ [])
]

pub read : Answers → Bool → Session → Option WorkerError × List Event
unfolding after_read
read e stopping s =
    if stopping
    then (some is_stopped, [])
    else if e.deadline
    then elim e.decoded [
      | none ↦ (some decode_failed, sets_deadline ∷ [])
      | some d ↦ let (err, t) = after_read e s d in (err, sets_deadline ∷ decodes d.1 ∷ t)
    ]
    else (some deadline_failed, sets_deadline ∷ [])

pub write : Answers → Session → List ℕ → Option WorkerError × List Event
write e s p = elim (e.write_filter p) [
  | none ↦ (some filter_failed, [])
  | some out ↦ elim (encrypt s.cryptor out) [
    | none ↦ (some encrypt_failed, [])
    | some sealed ↦ (if e.encoded sealed then none else some encode_failed, encodes sealed ∷ [])
  ]
]
