-- ===== src/Dialog.antt =====
-- internal/dialog.go: one conversation of a client, its handshake, its receiving loop and its sends.
-- What the codec, the connection and the client's functions answer is a parameter, and a run is a value
-- with the trace of what it did. A buffer of the codec's pool is a number.
pub mod Receiving
pub mod Starting
mod Tests
use fabrica_net.Base.{
  ℕ, zero, suc, ◌+◌, Bool, true, false, Option, none, some, List, [], ◌∷◌, ◌++◌, map, if◌then◌else◌,
  ℤ,
}
use fabrica_net.Session.{Session, Cryptor, encrypt, decrypt, default_session}

-- `nil_session` and `closed_chan` are panics: a method of a nil session, a send on a closed channel.
pub data DialogError : Type 0 where
  no_handshake_pack is_stopped encrypt_failed encode_failed decode_failed auth_failed : DialogError
  decrypt_failed stop_triggered context_done nil_session closed_chan close_failed : DialogError

pub data Event : Type 0 where
  encodes : List ℕ → Event
  decodes : (pack : List ℕ) (buf : ℕ) → Event
  delivers : List ℕ → Event  -- into `receivedPackChan`
  frees : (buf : ℕ) → Event
  closes_authed closes_received closes_conn : Event

-- A nil session is none.
pub record Dialog : Type 0 where
  pub id : ℕ  -- uint64
  pub cli_id : ℤ
  pub session : Option Session
  pub authed : Bool  -- closed
  pub stopping : Bool

-- The time is given.
unfoldable pub new_dialog : ℕ → ℤ → ℤ → Dialog
new_dialog id cid now = record {
  id = id;
  cli_id = cid;
  session = some (default_session now);
  authed = false;
  stopping = false;
}

-- What the functions of the client and the codec answer in `start` and `Send`; none and false are
-- errors. `authFunc` returns a session, which may be nil, with its error or none.
pub record Answers : Type 0 where
  pub handshake_pack : ℕ → Option (List ℕ)
  pub encoded : List ℕ → Bool
  pub decoded : Option (List ℕ × ℕ)  -- the packet and its buffer
  pub auth : List ℕ → Option Session × Bool

abbrev pub encode : Answers → List ℕ → Option DialogError × List Event
encode e out = (if e.encoded out then none else some encode_failed, encodes out ∷ [])

-- `Send`
pub send : Answers → Dialog → List ℕ → Option DialogError × List Event
send e d pack = if d.stopping then (some is_stopped, []) else elim d.session [
  | none ↦ (some nil_session, [])
  | some s ↦ elim (encrypt s.cryptor pack) [
    | none ↦ (some encrypt_failed, [])
    | some out ↦ encode e out
  ]
]

-- The statements of `handshake` behind `defer free()`, and then the free: the field is assigned what
-- `authFunc` returns, its error or not.
pub after_decode : Answers → Dialog → List ℕ × ℕ → Option DialogError × Dialog × List Event
after_decode e d (pack, buf) =
    let (s, ok) = e.auth pack in
    (if ok then none else some auth_failed, record d { session = s }, frees buf ∷ [])

abbrev pub traced :
    List Event → Option DialogError × Dialog × List Event → Option DialogError × Dialog × List Event
traced before (err, d, t) = (err, d, before ++ t)

abbrev pub handshake_sent :
    Answers → Dialog → Option DialogError × List Event → Option DialogError × Dialog × List Event
handshake_sent e d (some err, t) = (some err, d, t)
handshake_sent e d (none, t) = elim e.decoded [
  | none ↦ (some decode_failed, d, t)
  | some (pack, buf) ↦ traced (t ++ decodes pack buf ∷ []) (after_decode e d (pack, buf))
]

pub handshake : Answers → Dialog → List ℕ → Option DialogError × Dialog × List Event
unfolding send after_decode
handshake e d pack = handshake_sent e d (send e d pack)

-- `start` up to `eg.Wait`, which waits for the receiving loop.
abbrev pub open_authed :
    Option DialogError × Dialog × List Event → Option DialogError × Dialog × List Event
open_authed (some err, d, t) = (some err, d, t)
open_authed (none, d, t) = (none, record d { authed = true }, t ++ closes_authed ∷ [])

pub start : Answers → Dialog → Option DialogError × Dialog × List Event
unfolding handshake
start e d = elim (e.handshake_pack d.id) [
  | none ↦ (some no_handshake_pack, d, [])
  | some pack ↦ open_authed (handshake e d pack)
]

-- One turn of `receiveLoop`: what the `select` takes, what the codec answers, and whether the channel
-- has been closed by the time of the send, which waits while it is full.
pub data Choice : Type 0 where
  takes_stop takes_done takes_default : Choice

pub record Turn : Type 0 where
  pub choice : Choice
  pub decoded : Option (List ℕ × ℕ)
  pub chan_closed : Bool

-- The turn's error, and whether its free has been deferred.
abbrev pub receive : Option Session → Turn → List ℕ → Option DialogError × List Event
receive none t pack = (some nil_session, [])
receive (some s) t pack = elim (decrypt s.cryptor pack) [
  | none ↦ (some decrypt_failed, [])
  | some plain ↦ (if t.chan_closed then (some closed_chan, []) else (none, delivers plain ∷ []))
]

pub turn : Option Session → Turn → Option DialogError × List Event × List ℕ
turn s t = elim t.choice [
  | takes_stop ↦ (some stop_triggered, [], [])
  | takes_done ↦ (some context_done, [], [])
  | takes_default ↦ elim t.decoded [
    | none ↦ (some decode_failed, [], [])
    | some (pack, buf) ↦
        let (err, events) = receive s t pack in (err, decodes pack buf ∷ events, buf ∷ [])
  ]
]

-- The loop over so many turns, with the frees deferred so far, the latest first: none while it goes on.
-- The deferred frees run when it returns, or panics.
abbrev pub receive_then :
    (List ℕ → Option DialogError × List Event)
    → List ℕ
    → Option DialogError × List Event × List ℕ
    → Option DialogError × List Event
receive_then rest deferred (some err, events, buf) =
    (some err, events ++ map frees (buf ++ deferred))
receive_then rest deferred (none, events, buf) =
    let (err, later) = rest (buf ++ deferred) in (err, events ++ later)

unfoldable pub receive_loop : Option Session → List Turn → List ℕ → Option DialogError × List Event
unfolding turn
receive_loop s [] deferred = (none, [])
receive_loop s (t ∷ ts) deferred = receive_then (receive_loop s ts) deferred (turn s t)

-- `stop`, with the answer of `conn.Close` (a dialog has a connection); a second call does nothing.
unfoldable pub stop : Bool → Dialog → Option DialogError × Dialog × List Event
stop closed d = if d.stopping then (none, d, []) else (
  if closed then none else some close_failed,
  record d { stopping = true },
  closes_received ∷ closes_conn ∷ [],
)
