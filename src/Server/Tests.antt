-- ===== src/Server/Tests.antt =====
-- internal/server.go and server/inspector.go: the theorems at a server with two workers.
use fabrica_net.Base.{false, Option, none, some, [], ◌∷◌, pos, ◌≡◌, refl, arith}
use fabrica_net.Workers.{Worker, UidWids, Manager, new_worker_manager, worker, get_by_uids}
use fabrica_net.Workers.Shard.{new_worker_manager-IsSharded}
use fabrica_net.Workers.History.{calls, calls-IsSharded, put_call}
use fabrica_net.Server.{
  Chans, BaseServer, ServerError, stop_failed, multicast, broadcast, disconnect,
}
use fabrica_net.Server.Deliver.{delivered, times, workers_of, multicast-delivered}
use fabrica_net.Server.Broadcast.{times_in, all_workers, broadcast-delivered}
use fabrica_net.Server.Disconnect.{Disconnects, disconnect-Disconnects}

abbrev ann : Worker
ann = record { ref = 1; wid = 17; uid = pos 100; sid = pos 1; color = 7 ∷ [] }

abbrev bob : Worker
bob = record { ref = 2; wid = 33; uid = pos 200; sid = pos 1; color = [] }

abbrev state : UidWids × Manager
state = calls (put_call ann ∷ put_call bob ∷ []) ([], new_worker_manager 4)

abbrev server : BaseServer
server = record { on_stopping = false; manager = state.1 }

abbrev quiet : Chans
quiet r = record { stopping = false; queue = [] }

multicast-delivered_example :
    let (e, ch) = multicast server state.0 quiet (pos 200 ∷ pos 200 ∷ []) (5 ∷ []) in
    (e ≡ none)
    × (ch 2
        ≡ delivered
            (quiet 2)
            (times 2 (workers_of (get_by_uids state.0 state.1 (pos 200 ∷ pos 200 ∷ []))))
            (5 ∷ []))
multicast-delivered_example =
    multicast-delivered server state.0 quiet (pos 200 ∷ pos 200 ∷ []) (5 ∷ []) 2 refl refl

broadcast-delivered_example :
    let (e, ch) = broadcast server quiet (7 ∷ []) (pos 1) (5 ∷ []) in
    (e ≡ none)
    × (ch 1
        ≡ delivered (quiet 1) (times_in (7 ∷ []) (pos 1) 1 (all_workers state.1.buckets)) (5 ∷ []))
broadcast-delivered_example = broadcast-delivered server quiet (7 ∷ []) (pos 1) (5 ∷ []) 1 refl refl

fails : Worker → Option ServerError
fails w = some stop_failed

disconnect-Disconnects_example :
    Disconnects fails server state.0 quiet 33
      (worker state.1 33)
      (disconnect fails server state.0 quiet 33)
disconnect-Disconnects_example =
    disconnect-Disconnects fails server state.0 quiet 33
      (calls-IsSharded (put_call ann ∷ put_call bob ∷ []) ([], new_worker_manager 4)
        (new_worker_manager-IsSharded 4 (omega arith) (omega arith)))
      refl
