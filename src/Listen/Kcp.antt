-- ===== src/Listen/Kcp.antt =====
-- kcp/server/listener.go: a KCP listener from its construction to its end. `Smux` has the registry of
-- its sessions while it runs; here they are a list, in the order in which `Range` visits them.
use fabrica_net.Base.{
  ℕ, suc, Bool, true, false, ◌&&◌, Option, none, some, List, [], ◌∷◌, ◌++◌, if◌then◌else◌, ◌≡◌, ◌≢◌,
  refl,
}
use fabrica_net.Conf
use fabrica_net.Net.{ConnIdGenerator, next, new_conn_id_generator}
use fabrica_net.Tuner.{ConfigError, validate}

pub data KcpError : Type 0 where
  invalid_config : ConfigError → KcpError
  listen_failed read_buffer_failed write_buffer_failed dscp_failed : KcpError
  accept_failed smux_failed : KcpError
  session_close_failed listener_close_failed : KcpError

-- false is an error.
pub record Answers : Type 0 where
  pub listens : Bool
  pub read_buffer : Bool
  pub write_buffer : Bool
  pub dscp : Bool

pub record Listener : Type 0 where
  pub conf : Conf.Kcp
  pub conn_id_gen : ConnIdGenerator
  pub stream_chan : List ℕ
  pub smux_id : ℕ
  pub smux_sessions : List ℕ  -- the ids
  pub stopping : Bool

abbrev pub net_type_kcp : ℕ
net_type_kcp = 2

abbrev pub fresh : Conf.Kcp → Listener
fresh c = record {
  conf = c;
  conn_id_gen = new_conn_id_generator net_type_kcp;
  stream_chan = [];
  smux_id = 0;
  smux_sessions = [];
  stopping = false;
}

-- `newListener`: its error, the listener, and whether a socket is open when it has returned.
abbrev pub Made : Type 0
Made = Option KcpError × Option Listener × Bool

abbrev pub listened : Conf.Kcp → Answers → Made
listened c a =
    if a.read_buffer
    then if a.write_buffer
      then if a.dscp then (none, some (fresh c), true) else (some dscp_failed, none, true)
      else (some write_buffer_failed, none, true)
    else (some read_buffer_failed, none, true)

abbrev pub validated : Conf.Kcp → Answers → Option ConfigError → Made
validated c a (some err) = (some (invalid_config err), none, false)
validated c a none = if a.listens then listened c a else (some listen_failed, none, false)

pub new_listener : Conf.Kcp → Answers → Made
new_listener c a = validated c a (validate c)

-- `accept`, of a connection that comes, or not, and of a smux session that can be made, or not. With
-- smux the session is stored; without it the connection goes into the channel.
pub accept : (comes makes_session : Bool) → Listener → Option KcpError × Listener
accept comes makes_session l =
    let id = suc l.smux_id in
    let (conn, gen) = next l.conn_id_gen in
    if comes
    then if l.conf.smux
      then if makes_session
        then (none, record l { smux_id = id; smux_sessions = l.smux_sessions ++ id ∷ [] })
        else (some smux_failed, record l { smux_id = id })
      else (none, record l { conn_id_gen = gen; stream_chan = l.stream_chan ++ conn ∷ [] })
    else (some accept_failed, l)

-- The stream that a smux session accepts.
pub accept_stream : Listener → Listener
accept_stream l =
    let (conn, gen) = next l.conn_id_gen in
    record l { conn_id_gen = gen; stream_chan = l.stream_chan ++ conn ∷ [] }

abbrev pub session_errors : (ℕ → Bool) → List ℕ → List KcpError
session_errors closes [] = []
session_errors closes (id ∷ ids) =
    let rest = session_errors closes ids in if closes id then rest else session_close_failed ∷ rest

-- `Stop`: the errors joined, the sessions that it stops, and whether it closes the listener.
pub stop : (ℕ → Bool) → Bool → Listener → List KcpError × List ℕ × Bool × Listener
stop closes listener_closes l = if l.stopping then ([], [], false, l) else (
  session_errors closes l.smux_sessions
      ++ (if listener_closes then [] else listener_close_failed ∷ []),
  l.smux_sessions,
  true,
  record l { stopping = true },
)

-- What a construction returns and leaves open.
abbrev pub Constructs : Conf.Kcp → Answers → Option ConfigError → Made → Type 0
Constructs c a (some err) r = r ≡ (some (invalid_config err), none, false)
Constructs c a none (err, l, open_socket) =
    (open_socket ≡ a.listens)
    × (if a.listens && a.read_buffer && a.write_buffer && a.dscp
        then (err ≡ none) × (l ≡ some (fresh c))
        else (err ≢ none) × (l ≡ none))

listened-Constructs :
    (c : Conf.Kcp) (l r w d : Bool)
    → let a : Answers = record { listens = l; read_buffer = r; write_buffer = w; dscp = d } in
      Constructs c a none (validated c a none)
listened-Constructs c false r w d = (refl, (λ z. cc, refl))
listened-Constructs c true false w d = (refl, (λ z. cc, refl))
listened-Constructs c true true false d = (refl, (λ z. cc, refl))
listened-Constructs c true true true false = (refl, (λ z. cc, refl))
listened-Constructs c true true true true = (refl, (refl, refl))

validated-Constructs :
    (c : Conf.Kcp) (a : Answers) (o : Option ConfigError) → Constructs c a o (validated c a o)
validated-Constructs c a (some err) = refl
validated-Constructs c a none = listened-Constructs c a.listens a.read_buffer a.write_buffer a.dscp

-- `newListener` opens no socket for a configuration that the validator rejects. Else it gives a listener
-- just if the socket listens and takes its two buffer sizes and its DSCP value; where it listens and does
-- not take one of them, an error is returned and the socket stays open.
pub new_listener-Constructs :
    (c : Conf.Kcp) (a : Answers) → Constructs c a (validate c) (new_listener c a)
unfolding new_listener
new_listener-Constructs c a = validated-Constructs c a (validate c)
