-- ===== src/Listen/Tests.antt =====
-- The theorems on the listeners at concrete calls.
use fabrica_net.Base.{true, false, List, [], ◌∷◌, ◌++◌, ◌≡◌, ◌≤◌, refl, length, arith}
use fabrica_net.Conf.{default_tcp}
use fabrica_net.Net.{new_conn_id_generator, next}
use fabrica_net.Listen.{
  Socket, TcpListener, WsListener, WsCall, handle, accept, stop, ws_calls, ws_call,
  handle_websocket, ws_accept, ws_stop, queues, accepts, stops, accepts_zero, panics, capacity,
}
use fabrica_net.Listen.Queue.{accepted_ids, queued_ids, ws_calls-Fifo}
use fabrica_net.Listen.Smux.{
  Registry, new_registry, Steps, stay, ◌then_step◌, starts, stores, set_entry, begun, lost, IsStale,
  lost_stays,
}

abbrev tcp : TcpListener
tcp = record { conf = default_tcp; listening = true; conn_id_gen = new_conn_id_generator 1 }

-- The write buffer is refused.
abbrev refusing : Socket
refusing = record {
  resolves = true;
  listens = true;
  accepts = true;
  keeps_alive = true;
  reads = true;
  writes = false;
  closes = true;
}

abbrev ws : WsListener
ws = record { conn_id_gen = new_conn_id_generator 3; conn_chan = []; closed = false }

abbrev calls : List WsCall
calls = handle true ∷ handle true ∷ accept false ∷ stop ∷ accept false ∷ accept false ∷ stop ∷ []

ws_calls-Fifo_example :
    (accepted_ids (ws_calls calls ws).0 ++ (ws_calls calls ws).1.conn_chan
      ≡ [] ++ queued_ids (ws_calls calls ws).0)
    × (length (ws_calls calls ws).1.conn_chan ≤ capacity)
ws_calls-Fifo_example = ws_calls-Fifo calls ws (omega arith)

-- The calls behind the stop get a carrier with no connection, and the second stop panics.
stopped :
    (ws_calls calls ws).0
    ≡ queues 19 ∷ queues 35 ∷ accepts 19 ∷ stops ∷ accepts 35 ∷ accepts_zero ∷ panics ∷ []
unfolding ws_calls ws_call handle_websocket ws_accept ws_stop next new_conn_id_generator
stopped = refl

abbrev registry : Registry
registry = new_registry (new_conn_id_generator 2)

abbrev one_session : Registry
one_session = record (set_entry registry 1 begun) { counter = 1 }

abbrev stored_session : Registry
stored_session = set_entry one_session 1 (record begun { pending = false; stored = true })

run : Steps registry stored_session
unfolding new_registry
run = (stay registry then_step starts registry) then_step stores one_session 1 refl

lost_stays_example : Steps registry (lost registry) × IsStale 1 (lost registry)
unfolding new_registry
lost_stays_example = lost_stays registry (lost registry) (stay (lost registry))
