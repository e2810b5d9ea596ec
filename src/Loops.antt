-- ===== src/Loops.antt =====
-- internal/worker.go: the loops of a running worker, `Run`, `Tunnel` and `Stop`; internal/tunnel.go: the
-- loop of a tunnel's channel, and its `stop`. What the goroutines' `select`s take, and what the service
-- and the connection answer, is a parameter. `Closing` has `Push` and `Forward` against the closing of
-- their channels.
pub mod Reading
pub mod Sending
pub mod Closing
mod Tests
use fabrica_net.Base.{
  ℕ, zero, suc, ◌+◌, Bool, true, false, Option, none, some, List, [], ◌∷◌, ◌++◌, if◌then◌else◌, ℤ,
  pos, ◌*◌, ◌^◌, leb_ℤ, ◌⊎◌, inl, inr,
}
use fabrica_net.Session.{Session}
use fabrica_net.Life.{Event, WorkerError, Answers, read, write}
use fabrica_net.Tunnels.{Groups, tunnel, create_tunnel}

pub data LoopError : Type 0 where
  context_done stop_triggered channel_closed tick_failed handle_failed : LoopError
  read_failed write_failed : WorkerError → LoopError

-- A turn of `readLoop`: the context has ended, or a read, with what it meets.
pub data ReadTurn : Type 0 where
  read_done : ReadTurn
  reads : (stopping : Bool) → Answers → ReadTurn

-- Over so many turns; none while the loop goes on.
abbrev pub read_on :
    Option WorkerError × List Event → Option LoopError × List Event → Option LoopError × List Event
read_on (some err, t) rest = (some (read_failed err), t)
read_on (none, t) (err, t') = (err, t ++ t')

pub read_loop : Session → List ReadTurn → Option LoopError × List Event
read_loop s [] = (none, [])
read_loop s (read_done ∷ ts) = (some context_done, [])
read_loop s (reads stopping e ∷ ts) = read_on (read e stopping s) (read_loop s ts)

-- A turn of `sendLoop`: the context has ended, the channel is closed and empty, or a packet comes out.
pub data SendTurn : Type 0 where
  send_done : SendTurn
  chan_closed : SendTurn
  sends : List ℕ → Answers → SendTurn

abbrev pub write_on :
    Option WorkerError × List Event → Option LoopError × List Event → Option LoopError × List Event
write_on (some err, t) rest = (some (write_failed err), t)
write_on (none, t) (err, t') = (err, t ++ t')

pub send_loop : Session → List SendTurn → Option LoopError × List Event
send_loop s [] = (none, [])
send_loop s (send_done ∷ ts) = (some context_done, [])
send_loop s (chan_closed ∷ ts) = (some channel_closed, [])
send_loop s (sends p e ∷ ts) = write_on (write e s p) (send_loop s ts)

-- `tickLoop`: the interval, in nanoseconds; and the turns, each the context's end or a tick, which the
-- service takes or not. The number is of its ticks.
abbrev pub default_tick_interval : ℤ
default_tick_interval = pos (10 * 10 ^ 9)

pub tick_interval : ℤ → ℤ
tick_interval interval = if leb_ℤ interval (pos 0) then default_tick_interval else interval

pub data TickTurn : Type 0 where
  tick_done : TickTurn
  ticks : (ok : Bool) → TickTurn

pub tick_loop : List TickTurn → Option LoopError × ℕ
tick_loop [] = (none, 0)
tick_loop (tick_done ∷ ts) = (some context_done, 0)
tick_loop (ticks true ∷ ts) = let (err, n) = tick_loop ts in (err, suc n)
tick_loop (ticks false ∷ ts) = (some tick_failed, 1)

-- A turn of `csLoop` of a tunnel: the messages handled.
pub data CsTurn : Type 0 where
  cs_done : CsTurn
  cs_closed : CsTurn
  handles_cs : (message : ℕ) → (ok : Bool) → CsTurn

pub cs_loop : List CsTurn → Option LoopError × List ℕ
cs_loop [] = (none, [])
cs_loop (cs_done ∷ ts) = (some context_done, [])
cs_loop (cs_closed ∷ ts) = (some channel_closed, [])
cs_loop (handles_cs m true ∷ ts) = let (err, ms) = cs_loop ts in (err, m ∷ ms)
cs_loop (handles_cs m false ∷ ts) = (some handle_failed, m ∷ [])

-- `Run`: `eg.Wait` gives the first error, of the goroutines in the order in which they return.
pub run : List (Option LoopError) → Option LoopError
run [] = none
run (some err ∷ rest) = some err
run (none ∷ rest) = run rest

-- `Tunnel`: the type of a tunnel is the service's; the capacity for a new group is no more than a hint.
pub worker_tunnel :
    {T S : Type 0} (on_stopping : T → Bool) (tunnel_type : ℕ → Option ℕ)
    → (S → ℕ → ℕ → Option T × S)
    → S
    → Groups on_stopping
    → ℕ
    → ℕ
    → Option T × S × Groups on_stopping
worker_tunnel on_stopping tunnel_type create s g mod_id oid = elim (tunnel_type mod_id) [
  | none ↦ (none, s, g)
  | some tp ↦ elim (tunnel on_stopping g tp oid) [
    | some t ↦ (some t, s, g)
    | none ↦ create_tunnel on_stopping create s g tp oid
  ]
]

-- What `Stop` of a worker does, and what the service and the connection answer to it.
pub data StopEvent : Type 0 where
  on_disconnect stops_tunnels closes_send_chan closes_conn sets_deadline : StopEvent

pub data StopError : Type 0 where
  on_disconnect_failed close_failed : StopError

-- `TurnOff` runs its function at the first call alone. Stopping the tunnels returns `nil` always.
pub stop : (connected disconnects closes stopping : Bool) → List StopError × List StopEvent × Bool
stop connected disconnects closes stopping = if stopping then ([], [], true) else (
  (if connected then (if disconnects then [] else on_disconnect_failed ∷ []) else [])
      ++ (if closes then [] else close_failed ∷ []),
  (if connected then on_disconnect ∷ [] else [])
      ++ (stops_tunnels
          ∷ closes_send_chan
          ∷ closes_conn
          ∷ (if closes then [] else sets_deadline ∷ [])),
  true,
)

-- A tunnel: what `Forward` does to its channel, a send that waits while it is full.
pub forward : (stopping : Bool) → List ℕ → ℕ → Bool × List ℕ
forward stopping cs_chan message =
    if stopping then (false, cs_chan) else (true, cs_chan ++ message ∷ [])

pub data TunnelEvent : Type 0 where
  closes_cs_chan : TunnelEvent
  on_stop : (reason : Option LoopError) → TunnelEvent

-- `stop` of a tunnel, for a reason: whether `OnStop` failed, what was done, and that it is stopping.
pub tunnel_stop : (stops stopping : Bool) → Option LoopError → Bool × List TunnelEvent × Bool
tunnel_stop stops stopping reason =
    if stopping then (true, [], true) else (stops, closes_cs_chan ∷ on_stop reason ∷ [], true)

-- `run` of a tunnel: the first error of its goroutines is the reason of the stop, which is deferred.
pub tunnel_run :
    (stops stopping : Bool) → List (Option LoopError) → Option LoopError × Bool × List TunnelEvent
unfolding run tunnel_stop
tunnel_run stops stopping results =
    let reason = run results in
    let (ok, events, stopping') = tunnel_stop stops stopping reason in (reason, ok, events)
