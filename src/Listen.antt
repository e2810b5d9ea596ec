-- ===== src/Listen.antt =====
-- tcp/server/listener.go and websocket/server/listener.go: the connections that a listener accepts.
-- `Smux` is kcp/server/listener.go's registry of smux sessions. What the sockets answer is a parameter;
-- a connection is known by its id.
pub mod Tcp
pub mod Queue
pub mod Smux
pub mod Kcp
pub mod Origin
mod Tests
use fabrica_net.Base.{
  ℕ, zero, suc, ◌+◌, Bool, true, false, Option, none, some, List, [], ◌∷◌, ◌++◌, if◌then◌else◌,
  eq_bytes, ◌||◌, ltb, ℤ, length,
}
use fabrica_net.Conf
use fabrica_net.Net.{ConnIdGenerator, next}

pub data ListenError : Type 0 where
  resolve_failed listen_failed accept_failed : ListenError
  keep_alive_failed read_buffer_failed write_buffer_failed close_failed : ListenError

pub data TcpEvent : Type 0 where
  sets_keep_alive : Bool → TcpEvent
  sets_read_buffer sets_write_buffer : ℤ → TcpEvent
  closes_conn : TcpEvent

-- false is an error.
pub record Socket : Type 0 where
  pub resolves : Bool
  pub listens : Bool
  pub accepts : Bool
  pub keeps_alive : Bool
  pub reads : Bool
  pub writes : Bool
  pub closes : Bool

pub record TcpListener : Type 0 where
  pub conf : Conf.Tcp
  pub listening : Bool  -- `l.listener` is not nil
  pub conn_id_gen : ConnIdGenerator

-- `Start` of the TCP listener
pub tcp_start : Socket → TcpListener → Option ListenError × TcpListener
tcp_start s l =
    if s.resolves
    then if s.listens then (none, record l { listening = true }) else (some listen_failed, l)
    else (some resolve_failed, l)

-- `configure`
pub configure : Conf.Tcp → Socket → Option ListenError × List TcpEvent
configure c s =
    if s.keeps_alive
    then if s.reads
      then (
        if s.writes then none else some write_buffer_failed,
        sets_keep_alive c.keep_alive
            ∷ sets_read_buffer c.read_buf_size
            ∷ sets_write_buffer c.write_buf_size
            ∷ [],
      )
      else (
        some read_buffer_failed,
        sets_keep_alive c.keep_alive ∷ sets_read_buffer c.read_buf_size ∷ [],
      )
    else (some keep_alive_failed, sets_keep_alive c.keep_alive ∷ [])

-- The deferred function, behind a return: the errors joined.
abbrev pub close_on_error : Socket → Option ListenError → List ListenError × List TcpEvent
close_on_error s none = ([], [])
close_on_error s (some err) = (err ∷ (if s.closes then [] else close_failed ∷ []), closes_conn ∷ [])

-- What `Accept` returns, the id of the carrier or none; what it did; and the generator.
abbrev pub Accepted : Type 0
Accepted = List ListenError × Option ℕ × List TcpEvent × TcpListener

abbrev pub configured : Socket → TcpListener → Option ListenError × List TcpEvent → Accepted
configured s l (some err, t) =
    let (errs, closing) = close_on_error s (some err) in (errs, none, t ++ closing, l)
configured s l (none, t) =
    let (id, gen) = next l.conn_id_gen in ([], some id, t, record l { conn_id_gen = gen })

-- `Accept` of the TCP listener
pub tcp_accept : Socket → TcpListener → Accepted
unfolding configure
tcp_accept s l =
    if s.accepts then configured s l (configure l.conf s) else (accept_failed ∷ [], none, [], l)

-- The WebSocket listener: the handler puts connections into a channel, from which `Accept` takes them.
pub record WsListener : Type 0 where
  pub conn_id_gen : ConnIdGenerator
  pub conn_chan : List ℕ
  pub closed : Bool  -- the channel

abbrev pub capacity : ℕ
capacity = 1024

pub data WsEvent : Type 0 where
  upgrade_fails : WsEvent
  queues : (id : ℕ) → WsEvent
  drops : (id : ℕ) → WsEvent  -- and leaves the connection open
  panics : WsEvent  -- on a closed channel
  accepts : (id : ℕ) → WsEvent
  accepts_zero : WsEvent  -- a carrier with no connection, and no error
  context_done : WsEvent
  waits : WsEvent
  stops : WsEvent

-- `slices.Contains`
abbrev pub contains : List (List ℕ) → List ℕ → Bool
contains [] v = false
contains (x ∷ xs) v = eq_bytes x v || contains xs v

-- `CheckOrigin`, of the header `Origin` of a request, which is empty if there is none.
pub check_origin : Conf.WebSocket → List ℕ → Bool
check_origin c origin = contains c.allow_origins origin

-- `handleWebSocket`: the id is taken before the channel is tried.
pub handle_websocket : Bool → WsListener → WsEvent × WsListener
handle_websocket upgrades l =
    let (id, gen) = next l.conn_id_gen in
    if upgrades
    then if l.closed
      then (panics, record l { conn_id_gen = gen })
      else if ltb (length l.conn_chan) capacity
      then (queues id, record l { conn_id_gen = gen; conn_chan = l.conn_chan ++ id ∷ [] })
      else (drops id, record l { conn_id_gen = gen })
    else (upgrade_fails, l)

-- `Accept`, of whether the `select` takes the context's end.
abbrev pub take_conn : WsListener → List ℕ → WsEvent × WsListener
take_conn l [] = (if l.closed then accepts_zero else waits, l)
take_conn l (id ∷ rest) = (accepts id, record l { conn_chan = rest })

pub ws_accept : Bool → WsListener → WsEvent × WsListener
ws_accept done l = if done then (context_done, l) else take_conn l l.conn_chan

-- The channel's part in `Stop`.
pub ws_stop : WsListener → WsEvent × WsListener
ws_stop l = if l.closed then (panics, l) else (stops, record l { closed = true })

pub data WsCall : Type 0 where
  handle : (upgrades : Bool) → WsCall
  accept : (done : Bool) → WsCall
  stop : WsCall

pub ws_call : WsCall → WsListener → WsEvent × WsListener
unfolding handle_websocket ws_accept ws_stop
ws_call (handle upgrades) l = handle_websocket upgrades l
ws_call (accept done) l = ws_accept done l
ws_call stop l = ws_stop l

pub ws_calls : List WsCall → WsListener → List WsEvent × WsListener
unfolding ws_call
ws_calls [] l = ([], l)
ws_calls (c ∷ cs) l = let (e, l') = ws_call c l in let (es, l'') = ws_calls cs l' in (e ∷ es, l'')
