-- ===== src/Server/Disconnect.antt =====
-- internal/server.go: `Disconnect`.
use fabrica_net.Base.{
  ℕ, true, false, Option, none, some, ◌==◌, if◌then◌else◌, ◌≡◌, refl, sym, ap, subst, arith,
}
use fabrica_net.Workers.{Worker, UidWids, worker}
use fabrica_net.Workers.Shard.{IsSharded, del_spec, worker-del}
use fabrica_net.Server.{
  Chans, ServerError, worker_not_found, BaseServer, is_stopped, disconnect, disconnect_found,
}

-- What `Disconnect` leaves, by whether there is a worker of the id.
abbrev pub Disconnects :
    (Worker → Option ServerError)
    → BaseServer
    → UidWids
    → Chans
    → ℕ
    → Option Worker
    → Option ServerError × BaseServer × UidWids × Chans
    → Type 0
Disconnects stop_error s uids ch wid none r = r ≡ (some worker_not_found, s, uids, ch)
Disconnects stop_error s uids ch wid (some w) (e, s', uids', ch') =
    (e ≡ stop_error w)
    × ((j : ℕ) → worker s'.manager j ≡ del_spec wid (worker s.manager) j)
    × ((ch' w.ref).stopping ≡ true)
    × ((i : ℕ) → (w.ref == i) ≡ false → ch' i ≡ ch i)

found-Disconnects :
    (stop_error : Worker → Option ServerError) (s : BaseServer) (uids : UidWids) (ch : Chans)
    (wid : ℕ) (o : Option Worker)
    → IsSharded s.manager
    → Disconnects stop_error s uids ch wid o (disconnect_found stop_error s uids ch wid o)
found-Disconnects stop_error s uids ch wid none v = refl
found-Disconnects stop_error s uids ch wid (some w) v =
    let same : (w.ref == w.ref) ≡ true = ground arith in
    (
      refl,
      λ j. worker-del uids s.manager wid j v,
      ap (λ b. (if b then record (ch w.ref) { stopping = true } else ch w.ref).stopping) same,
      λ i n. ap (λ b. if b then record (ch w.ref) { stopping = true } else ch i) n,
    )

-- On a server that is not stopping and whose manager is sharded, `Disconnect` of an id that no worker
-- has returns the error and changes nothing; else it takes just that worker out of the manager and stops it alone, also when
-- the stopping returns an error, which it passes on.
pub disconnect-Disconnects :
    (stop_error : Worker → Option ServerError) (s : BaseServer) (uids : UidWids) (ch : Chans)
    (wid : ℕ)
    → IsSharded s.manager
    → s.on_stopping ≡ false
    → Disconnects stop_error s uids ch wid
        (worker s.manager wid)
        (disconnect stop_error s uids ch wid)
unfolding disconnect
disconnect-Disconnects stop_error s uids ch wid v run =
    subst (Disconnects stop_error s uids ch wid (worker s.manager wid))
      (sym (
        ap
          (λ b.
            if b
            then (some is_stopped, s, uids, ch)
            else disconnect_found stop_error s uids ch wid (worker s.manager wid))
          run))
      (found-Disconnects stop_error s uids ch wid (worker s.manager wid) v)
