-- ===== src/Listen/Tcp.antt =====
-- tcp/server/listener.go: what `Accept` returns and closes.
use fabrica_net.Base.{
  ℕ, suc, Bool, true, false, ◌&&◌, none, some, List, [], ◌∷◌, if◌then◌else◌, ◌≢◌, ◌≡◌, refl,
}
use fabrica_net.Net.{next}
use fabrica_net.Listen.{
  accept_failed, TcpEvent, sets_keep_alive, sets_read_buffer, sets_write_buffer, closes_conn,
  Socket, TcpListener, configure, configured, Accepted, tcp_accept, keep_alive_failed,
  read_buffer_failed, write_buffer_failed,
}

-- How often a trace closes the connection.
abbrev pub closings : List TcpEvent → ℕ
closings [] = 0
closings (closes_conn ∷ t) = suc (closings t)
closings (sets_keep_alive v ∷ t) = closings t
closings (sets_read_buffer v ∷ t) = closings t
closings (sets_write_buffer v ∷ t) = closings t

-- By whether the socket gave a connection and took its three settings.
abbrev pub Accepts : Socket → TcpListener → Bool → Bool → Accepted → Type 0
Accepts s l false set (errs, id, t, l') = (errs ≢ []) × (id ≡ none) × (t ≡ []) × (l' ≡ l)
Accepts s l true true (errs, id, t, l') =
    (errs ≡ [])
    × (id ≡ some (next l.conn_id_gen).0)
    × (t
        ≡ sets_keep_alive l.conf.keep_alive
          ∷ sets_read_buffer l.conf.read_buf_size
          ∷ sets_write_buffer l.conf.write_buf_size
          ∷ [])
    × (l' ≡ record l { conn_id_gen = (next l.conn_id_gen).1 })
Accepts s l true false (errs, id, t, l') = (errs ≢ []) × (id ≡ none) × (closings t ≡ 1) × (l' ≡ l)

configured-Accepts :
    (s : Socket) (l : TcpListener) (a k r w : Bool)
    → Accepts s l a (k && r && w) (
        if a
        then configured s l (
            if k
            then if r
              then (
                if w then none else some write_buffer_failed,
                sets_keep_alive l.conf.keep_alive
                    ∷ sets_read_buffer l.conf.read_buf_size
                    ∷ sets_write_buffer l.conf.write_buf_size
                    ∷ [],
              )
              else (
                some read_buffer_failed,
                sets_keep_alive l.conf.keep_alive ∷ sets_read_buffer l.conf.read_buf_size ∷ [],
              )
            else (some keep_alive_failed, sets_keep_alive l.conf.keep_alive ∷ []))
        else (accept_failed ∷ [], none, [], l))
configured-Accepts s l false k r w = (λ z. cc, refl, refl, refl)
configured-Accepts s l true false r w = (λ z. cc, refl, refl, refl)
configured-Accepts s l true true false w = (λ z. cc, refl, refl, refl)
configured-Accepts s l true true true false = (λ z. cc, refl, refl, refl)
configured-Accepts s l true true true true = (refl, refl, refl, refl)

-- `Accept` of the TCP listener returns a carrier just if the socket gave a connection and took its three
-- settings, those of the configuration; it has the next id of the generator. Else it returns an error
-- and takes no id, and a connection that did not take its settings is closed once.
pub tcp_accept-Accepts :
    (s : Socket) (l : TcpListener)
    → Accepts s l s.accepts (s.keeps_alive && s.reads && s.writes) (tcp_accept s l)
unfolding tcp_accept configure
tcp_accept-Accepts s l = configured-Accepts s l s.accepts s.keeps_alive s.reads s.writes
