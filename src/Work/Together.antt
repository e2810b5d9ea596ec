-- ===== src/Work/Together.antt =====
-- internal/server.go: many connections at once, each of which `work` puts into the manager and takes out
-- again, as a step relation. Their ids differ, since one generator gives them.
use fabrica_net.Base.{ℕ, Option, none, some, List, [], ◌∷◌, ◌==◌, if◌then◌else◌, ◌≡◌}
use fabrica_net.Workers.{Worker, UidWids, Manager, new_worker_manager, worker, put, del}
use fabrica_net.Workers.Shard.{IsSharded}

-- The manager with the process-wide map, and the workers that are served.
pub record Server : Type 0 where
  pub uids : UidWids
  pub manager : Manager
  pub serving : List Worker

abbrev pub find : ℕ → List Worker → Option Worker
find j [] = none
find j (w ∷ ws) = if w.wid == j then some w else find j ws

abbrev pub without : ℕ → List Worker → List Worker
without k [] = []
without k (w ∷ ws) = let rest = without k ws in if w.wid == k then rest else w ∷ rest

abbrev pub joined : Server → Worker → Server
joined s w = record s {
  uids = (put s.uids s.manager w).1;
  manager = (put s.uids s.manager w).2;
  serving = w ∷ s.serving;
}

abbrev pub parted : Server → Worker → Server
parted s w = record s {
  uids = (del s.uids s.manager w.wid).0;
  manager = (del s.uids s.manager w.wid).1;
  serving = without w.wid s.serving;
}

pub data Step : Server → Server → Type 0 where
  joins : (s : Server) (w : Worker) → find w.wid s.serving ≡ none → Step s (joined s w)
  leaves : (s : Server) (w : Worker) → find w.wid s.serving ≡ some w → Step s (parted s w)

infixl 5 ◌then_step◌
pub data Steps : Server → Server → Type 0 where
  stay : (s : Server) → Steps s s
  ◌then_step◌ : {s s' s'' : Server} → Steps s s' → Step s' s'' → Steps s s''

abbrev pub new_server : UidWids → ℕ → Server
new_server uids n = record { uids = uids; manager = new_worker_manager n; serving = [] }

pub record IsRegistered (s : Server) : Type 0 where
  pub sharded : IsSharded s.manager
  pub found : (j : ℕ) → worker s.manager j ≡ find j s.serving
