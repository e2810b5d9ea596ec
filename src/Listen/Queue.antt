-- ===== src/Listen/Queue.antt =====
-- websocket/server/listener.go: the connections between `handleWebSocket` and `Accept`.
use fabrica_net.Base.{
  ℕ, ◌≤◌, Bool, true, false, List, [], ◌∷◌, ◌++◌, ltb, if◌then◌else◌, length, length-append,
  if_cases, ◌≡◌, ◌∙◌, refl, sym, ap, subst, arith, ltb→lt,
}
use mathlib.Core.List.{append-nil, append_assoc}
use fabrica_net.Net.{next}
use fabrica_net.Listen.{
  WsListener, WsEvent, upgrade_fails, queues, drops, panics, accepts, accepts_zero, context_done,
  waits, stops, handle_websocket, take_conn, ws_accept, ws_stop, WsCall, handle, accept, stop,
  ws_call, ws_calls, capacity,
}

abbrev pub queued_by : WsEvent → List ℕ
queued_by (queues id) = id ∷ []
queued_by upgrade_fails = []
queued_by (drops id) = []
queued_by panics = []
queued_by (accepts id) = []
queued_by accepts_zero = []
queued_by context_done = []
queued_by waits = []
queued_by stops = []

abbrev pub accepted_by : WsEvent → List ℕ
accepted_by (accepts id) = id ∷ []
accepted_by upgrade_fails = []
accepted_by (queues id) = []
accepted_by (drops id) = []
accepted_by panics = []
accepted_by accepts_zero = []
accepted_by context_done = []
accepted_by waits = []
accepted_by stops = []

abbrev pub queued_ids : List WsEvent → List ℕ
queued_ids [] = []
queued_ids (e ∷ es) = queued_by e ++ queued_ids es

abbrev pub accepted_ids : List WsEvent → List ℕ
accepted_ids [] = []
accepted_ids (e ∷ es) = accepted_by e ++ accepted_ids es

-- What one call does to the channel.
abbrev pub Passes : WsListener → WsEvent × WsListener → Type 0
Passes l (e, l') =
    (accepted_by e ++ l'.conn_chan ≡ l.conn_chan ++ queued_by e)
    × (length l.conn_chan ≤ capacity → length l'.conn_chan ≤ capacity)

unchanged :
    (l l' : WsListener) (e : WsEvent)
    → accepted_by e ≡ []
    → queued_by e ≡ []
    → l'.conn_chan ≡ l.conn_chan
    → Passes l (e, l')
unchanged l l' e a q c = (
  ap (λ x. x ++ l'.conn_chan) a
      ∙ c
      ∙ sym (append-nil l.conn_chan)
      ∙ sym (ap (λ x. l.conn_chan ++ x) q),
  λ h. subst (λ x. length x ≤ capacity) (sym c) h,
)

handle_websocket-Passes :
    (upgrades : Bool) (l : WsListener) → Passes l (handle_websocket upgrades l)
unfolding handle_websocket
handle_websocket-Passes false l = unchanged l l upgrade_fails refl refl refl
handle_websocket-Passes true l =
    if_cases (Passes l) l.closed _ _
      (λ y. unchanged l (record l { conn_id_gen = (next l.conn_id_gen).1 }) panics refl refl refl)
      (λ n.
        if_cases (Passes l) (ltb (length l.conn_chan) capacity) _ _
          (λ room. (
            refl,
            λ h. omega (
              arith,
              length-append l.conn_chan ((next l.conn_id_gen).0 ∷ []),
              ltb→lt (length l.conn_chan) capacity room,
            ),
          ))
          (λ full.
            unchanged l (record l { conn_id_gen = (next l.conn_id_gen).1 })
              (drops (next l.conn_id_gen).0) refl refl refl))

take_conn-Passes : (l : WsListener) (q : List ℕ) → l.conn_chan ≡ q → Passes l (take_conn l q)
take_conn-Passes l [] e =
    if_cases (λ o. Passes l (o, l)) l.closed accepts_zero waits
      (λ y. unchanged l l accepts_zero refl refl refl) (λ n. unchanged l l waits refl refl refl)
take_conn-Passes l (id ∷ rest) e =
    (sym e ∙ sym (append-nil l.conn_chan), λ h. omega (arith, ap length e))

ws_call-Passes : (c : WsCall) (l : WsListener) → Passes l (ws_call c l)
unfolding ws_call ws_accept ws_stop
ws_call-Passes (handle upgrades) l = handle_websocket-Passes upgrades l
ws_call-Passes (accept true) l = unchanged l l context_done refl refl refl
ws_call-Passes (accept false) l = take_conn-Passes l l.conn_chan refl
ws_call-Passes stop l =
    if_cases (Passes l) l.closed _ _ (λ y. unchanged l l panics refl refl refl)
      (λ n. unchanged l (record l { closed = true }) stops refl refl refl)

-- A call over what the later calls do: `q`, `q'` and `q''` are the channel before, between and behind.
onward :
    (a b q q' q'' xs ys : List ℕ)
    → a ++ q' ≡ q ++ b
    → xs ++ q'' ≡ q' ++ ys
    → a ++ xs ++ q'' ≡ q ++ (b ++ ys)
onward a b q q' q'' xs ys h k =
    append_assoc a xs q''
    ∙ ap (λ t. a ++ t) k
    ∙ sym (append_assoc a q' ys)
    ∙ ap (λ t. t ++ ys) h
    ∙ append_assoc q b ys

-- Over every sequence of requests, accepts and stops, the connections that `Accept` returns are those
-- that were put into the channel, in the same order: what has been accepted and what is still in the
-- channel is what was in it before and what has been put into it since. The channel never holds more
-- than its 1024.
pub ws_calls-Fifo :
    (cs : List WsCall) (l : WsListener)
    → length l.conn_chan ≤ capacity
    → (accepted_ids (ws_calls cs l).0 ++ (ws_calls cs l).1.conn_chan
        ≡ l.conn_chan ++ queued_ids (ws_calls cs l).0)
      × (length (ws_calls cs l).1.conn_chan ≤ capacity)
unfolding ws_calls
ws_calls-Fifo [] l h = (sym (append-nil l.conn_chan), h)
ws_calls-Fifo (c ∷ cs) l h =
    let (e, l') = ws_call c l in
    let (first, room) = ws_call-Passes c l in
    let (later, kept) = ws_calls-Fifo cs l' (room h) in
    (
      onward (accepted_by e) (queued_by e) l.conn_chan l'.conn_chan (ws_calls cs l').1.conn_chan
          (accepted_ids (ws_calls cs l').0) (queued_ids (ws_calls cs l').0) first later,
      kept,
    )

-- Once the listener has stopped and its channel is empty, every `Accept` returns at once, a carrier
-- with no connection and no error, unless the context has ended.
pub ws_accept-stopped :
    (l : WsListener)
    → l.closed ≡ true
    → l.conn_chan ≡ []
    → ((ws_accept false l).0 ≡ accepts_zero) × ((ws_stop l).0 ≡ panics)
unfolding ws_accept ws_stop
ws_accept-stopped l c e = (
  ap (λ q. (take_conn l q).0) e ∙ ap (λ b. if b then accepts_zero else waits) c,
  let t : ws_stop l ≡ (panics, l) =
        ap (λ b. if b then (panics, l) else (stops, record l { closed = true })) c in
      ap (λ r. r.0) t,
)
