-- ===== src/Client.antt =====
-- internal/client.go: a client, its dialogs and its end; tcp/client/dialer.go, kcp/client/dialer.go and
-- websocket/client/dialer.go: how it is connected. The sockets, smux and gorilla are other packages':
-- what they answer is a parameter, and a run is a value with the trace of what it opened and closed.
pub mod Dial
pub mod Dialogs
pub mod Ending
mod Tests
use fabrica_net.Base.{
  ℕ, zero, suc, ◌+◌, Bool, true, false, ◌⊎◌, inl, inr, Option, none, some, List, [], ◌∷◌, ◌++◌, map,
  if◌then◌else◌, ℤ, pos_part,
}
use fabrica_net.Conf.{Kcp}
use fabrica_net.Net.{dialog_id}
use fabrica_net.Tuner.{ConfigError, validate}
use fabrica_net.Dialog.{Dialog, DialogError, new_dialog}
use fabrica_net.Dialog
use fabrica_net.Workers.{Key, uint64_key, load, store, delete}

pub data Resource : Type 0 where
  socket smux_session response_body : Resource
  stream : (id : ℕ) → Resource

pub data Event : Type 0 where
  opens : Resource → Event
  closes : Resource → Event
  configures : Kcp → Event

pub data DialError : Type 0 where
  bad_target connect_failed session_failed stream_failed : DialError

-- What the network answers to a dialer; false is an error.
pub record Network : Type 0 where
  pub parses : Bool  -- the target
  pub connects : Bool
  pub responds : Bool  -- the response to a WebSocket handshake is not nil
  pub makes_session : Bool
  pub opens_stream : ℕ → Bool

-- A carrier is the id of its connection, which is a socket or a stream of it.
pub record Carrier : Type 0 where
  pub id : ℕ
  pub conn : Resource

abbrev pub Dialed : Type 0
Dialed = Option DialError × List Carrier × List Event

-- A `nil` error is none, a nil slice is empty.
pub tcp_dial : ℤ → Network → Dialed
tcp_dial cli_id n =
    if n.parses
    then if n.connects
      then (none, record { id = dialog_id cli_id 0; conn = socket } ∷ [], opens socket ∷ [])
      else (some connect_failed, [], [])
    else (some bad_target, [], [])

-- The deferred close of the body runs behind the return, and its error is lost.
pub ws_dial : ℤ → Network → Dialed
ws_dial cli_id n =
    if n.parses
    then if n.connects
      then (
        none,
        record { id = dialog_id cli_id 0; conn = socket } ∷ [],
        opens socket ∷ (if n.responds then closes response_body ∷ [] else []),
      )
      else (some connect_failed, [], [])
    else (some bad_target, [], [])

pub record Dialer : Type 0 where
  pub cli_id : ℤ
  pub conf : Kcp
  pub smux : Bool  -- a session is kept

pub new_dialer : ℤ → Kcp → ConfigError ⊎ Dialer
new_dialer id conf = elim (validate conf) [
  | some err ↦ inl err
  | none ↦ inr (record { cli_id = id; conf = conf; smux = false })
]

-- The loop from stream `i` on, with so many streams to open: its error and the carriers made before it.
pub open_streams : ℕ → ℕ → ℤ → Network → List Carrier → Dialed
open_streams zero i cli_id n carriers = (none, carriers, [])
open_streams (suc k) i cli_id n carriers =
    let id = dialog_id cli_id i in
    let (err, all, t) =
      open_streams k (suc i) cli_id n (carriers ++ record { id = id; conn = stream id } ∷ []) in
    if n.opens_stream i
    then (err, all, opens (stream id) ∷ t)
    else (some stream_failed, carriers, [])

abbrev pub close_carriers : List Carrier → List Event
close_carriers [] = []
close_carriers (c ∷ cs) = closes c.conn ∷ close_carriers cs

-- The deferred cleanup tests the variable `err`.
pub cleanup : Option DialError → List Carrier → List Event
cleanup none carriers = []
cleanup (some err) carriers = close_carriers carriers ++ closes smux_session ∷ []

-- The result of a `return`, behind the deferred cleanup. The results are not named and the loop's error
-- has a variable of its own, so that `err` is the error of `smux.Client`, which was nil.
abbrev pub dialed_streams : Dialed → Dialed
dialed_streams (none, carriers, t) = (none, carriers, t ++ cleanup none carriers)
dialed_streams (some err, carriers, t) = (some err, [], t ++ cleanup none carriers)

abbrev pub traced : List Event → Dialed → Dialed
traced before (err, carriers, t) = (err, carriers, before ++ t)

-- The three ways on from a connection: its streams, no smux session, no smux. A session is kept.
abbrev pub dial_streams : Dialer → Network → Dialed × Dialer
dial_streams d n = (
  traced (opens socket ∷ configures d.conf ∷ opens smux_session ∷ [])
      (dialed_streams (open_streams (pos_part d.conf.smux_stream_size) 1 d.cli_id n [])),
  record d { smux = true },
)

abbrev pub no_session : Dialer → Dialed × Dialer
no_session d = ((some session_failed, [], opens socket ∷ configures d.conf ∷ closes socket ∷ []), d)

abbrev pub dial_socket : Dialer → Dialed × Dialer
dial_socket d = (
  (
    none,
    record { id = dialog_id d.cli_id 0; conn = socket } ∷ [],
    opens socket ∷ configures d.conf ∷ [],
  ),
  d,
)

-- `Dial`, and the dialer that it leaves.
pub kcp_dial : Dialer → Network → Dialed × Dialer
unfolding open_streams cleanup
kcp_dial d n =
    if n.connects
    then if d.conf.smux
      then if n.makes_session then dial_streams d n else no_session d
      else dial_socket d
    else ((some connect_failed, [], []), d)

-- `Stop` of the KCP dialer; the other two do nothing.
pub stop_dialer : Dialer → List Event
stop_dialer d = if d.smux then closes smux_session ∷ [] else []

-- The map is keyed by uint64; the times are those at which the dialogs are made.
pub record BaseClient : Type 0 where
  pub id : ℤ
  pub dialogs : List (Key × Dialog)
  pub received_closed : Bool  -- `receivedPackChan`

pub new_base_client : ℤ → BaseClient
new_base_client id = record { id = id; dialogs = []; received_closed = false }

-- The loop of `Start`; each dialog then runs in a goroutine.
abbrev pub store_dialogs : ℤ → ℤ → List Carrier → List (Key × Dialog) → List (Key × Dialog)
store_dialogs cid now [] m = m
store_dialogs cid now (c ∷ cs) m =
    store_dialogs cid now cs (store (uint64_key c.id) (new_dialog c.id cid now) m)

abbrev pub started : ℤ → BaseClient → Dialed → Option DialError × BaseClient
started now c (some err, carriers, t) = (some err, c)
started now c (none, carriers, t) =
    (none, record c { dialogs = store_dialogs c.id now carriers c.dialogs })

-- `Start`, of what the dialer returned.
pub start : ℤ → BaseClient → Dialed → Option DialError × BaseClient
start now c dialed = started now c dialed

-- The end of a dialog's goroutine.
pub dialog_ends : ℕ → BaseClient → BaseClient
dialog_ends id c = record c { dialogs = delete (uint64_key id) c.dialogs }

-- `Dialog` and `DefaultDialog`
pub dialog : BaseClient → ℕ → Option Dialog
dialog c id = load (uint64_key id) c.dialogs

pub default_dialog : BaseClient → Option Dialog
unfolding dialog
default_dialog c = dialog c (dialog_id c.id 0)

-- `WalkDialogs`: what `fn` does to a state, dialog after dialog.
pub walk_dialogs {ℓ} : {S : Type ℓ} → (Dialog → S → S) → List (Key × Dialog) → S → S
walk_dialogs f [] s = s
walk_dialogs f ((k, d) ∷ ds) s = walk_dialogs f ds (f d s)

-- The dialogs stopped one after the other, and the errors; `closed` says how closing the connection of
-- a dialog goes.
pub stop_dialogs : (ℕ → Bool) → List (Key × Dialog) → List DialogError × List (Key × Dialog)
unfolding Dialog.stop
stop_dialogs closed [] = ([], [])
stop_dialogs closed ((k, d) ∷ ds) =
    let (err, d', t) = Dialog.stop (closed d.id) d in
    let (errs, ds') = stop_dialogs closed ds in
    (elim err [ none ↦ errs | some x ↦ x ∷ errs ], (k, d') ∷ ds')

-- `Stop`: the errors joined, of the dialogs and of the dialer, or none where the second closing of
-- `receivedPackChan` panics.
pub stop : (ℕ → Bool) → Bool → BaseClient → Option (List DialogError × Bool) × BaseClient
unfolding stop_dialogs
stop closed dialer_stops c =
    let (errs, ds) = stop_dialogs closed c.dialogs in
    (
      if c.received_closed then none else some (errs, dialer_stops),
      record c { dialogs = ds; received_closed = true },
    )
