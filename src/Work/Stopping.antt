-- ===== src/Work/Stopping.antt =====
-- internal/server.go: the workers that `Stop` of the server stops.
use fabrica_net.Base.{
  ℕ, true, false, Bool, Option, some, List, [], ◌∷◌, ◌++◌, map, ◌≡◌, ◌∙◌, refl, sym,
}
use mathlib.Core.List.{append_assoc, append-nil}
use fabrica_net.Workers.{Worker, Manager}
use fabrica_net.Server.Broadcast.{all_workers, fold, walk-fold}
use fabrica_net.Work.{stop_server}

fold-refs :
    (ws : List Worker) (refs : List ℕ)
    → fold (λ w xs. xs ++ w.ref ∷ []) ws refs ≡ refs ++ map (λ w. w.ref) ws
fold-refs [] refs = sym (append-nil refs)
fold-refs (w ∷ ws) refs =
    fold-refs ws (refs ++ w.ref ∷ []) ∙ append_assoc refs (w.ref ∷ []) (map (λ w. w.ref) ws)

-- `Stop` of the server stops every worker in the buckets of its manager, as often as it is there, and
-- fails just if closing its listener fails.
pub stop_server-all :
    (listener : Option Bool) (m : Manager)
    → ((stop_server listener m).1 ≡ map (λ w. w.ref) (all_workers m.buckets))
      × ((stop_server (some false) m).0 ≡ false)
      × ((stop_server (some true) m).0 ≡ true)
unfolding stop_server
stop_server-all listener m = (
  walk-fold (λ w refs. (true, refs ++ w.ref ∷ [])) (λ w refs. refl) m []
      ∙ fold-refs (all_workers m.buckets) [],
  refl,
  refl,
)
