-- ===== src/Server.antt =====
-- internal/server.go: `Push`, `Multicast`, `Broadcast`, `Disconnect` and `WIDList` on the worker manager;
-- internal/worker.go: `Push`; server/inspector.go: `Wrap`.
-- A worker's send channel and whether it is stopping are kept by the worker's pointer. A send waits
-- while the channel is full; the channel's order is that of the sends. What `Stop` of a worker returns
-- depends on the service and the connection, and is a parameter.
pub mod Deliver
pub mod Broadcast
pub mod Disconnect
pub mod Wrap
mod Tests
use fabrica_net.Base.{
  ℕ, zero, suc, ◌+◌, Bool, true, false, ◌&&◌, ◌||◌, not, Option, none, some, List, [], ◌∷◌, ◌++◌,
  ◌==◌, if◌then◌else◌, length, ℤ, update,
}
use fabrica_net.Workers.{
  Worker, Key, eq_ℤ, UidWids, Manager, worker, del, get_by_uid, get_by_uids, walk,
}

pub record Chan : Type 0 where
  pub stopping : Bool
  pub queue : List (List ℕ)

abbrev pub Chans : Type 0
Chans = ℕ → Chan

pub data ServerError : Type 0 where
  is_stopped empty_pack worker_not_found worker_is_stopping : ServerError
  stop_failed : ServerError

-- A `nil` error is none.
pub push_worker : Worker → List ℕ → Chans → Option ServerError × Chans
push_worker w pack ch =
    if (ch w.ref).stopping
    then (some worker_is_stopping, ch)
    else if length pack == 0
    then (some empty_pack, ch)
    else (none, update ch w.ref (record (ch w.ref) { queue = (ch w.ref).queue ++ pack ∷ [] }))

pub record BaseServer : Type 0 where
  pub on_stopping : Bool
  pub manager : Manager

pub push : BaseServer → UidWids → Chans → ℤ → List ℕ → Option ServerError × Chans
push s uids ch uid pack =
    if s.on_stopping
    then (some is_stopped, ch)
    else if length pack == 0
    then (some empty_pack, ch)
    else elim (get_by_uid uids s.manager uid) [
      | none ↦ (some worker_not_found, ch)
      | some w ↦ push_worker w pack ch
    ]

-- The loop of `Multicast` over the map of workers, in any order; the errors that it joins are not
-- returned.
pub push_each : List (Key × Worker) → List ℕ → Chans → Chans
unfolding push_worker
push_each [] pack ch = ch
push_each ((k, w) ∷ ws) pack ch = push_each ws pack (push_worker w pack ch).1

pub multicast : BaseServer → UidWids → Chans → List ℤ → List ℕ → Option ServerError × Chans
unfolding push_each
multicast s uids ch us pack =
    if s.on_stopping
    then (some is_stopped, ch)
    else if length pack == 0
    then (some empty_pack, ch)
    else (none, push_each (get_by_uids uids s.manager us) pack ch)

-- The colors are strings.
abbrev pub eq_color : List ℕ → List ℕ → Bool
eq_color [] [] = true
eq_color (x ∷ xs) (y ∷ ys) = (x == y) && eq_color xs ys
eq_color _ _ = false

abbrev pub to_color : List ℕ → ℤ → List ℕ → Worker → Chans → Bool × Chans
to_color color sid pack w ch =
    let pushed = (push_worker w pack ch).1 in
    if not (eq_color w.color color) || not (eq_ℤ w.sid sid) then (true, ch) else (true, pushed)

pub broadcast : BaseServer → Chans → List ℕ → ℤ → List ℕ → Option ServerError × Chans
unfolding push_worker
broadcast s ch color sid pack =
    if s.on_stopping
    then (some is_stopped, ch)
    else if length pack == 0
    then (some empty_pack, ch)
    else (none, walk (to_color color sid pack) s.manager ch)

pub wid_list : BaseServer → List ℕ
wid_list s =
    let wids = walk (λ w ids. (true, ids ++ w.wid ∷ [])) s.manager [] in
    if s.on_stopping then [] else wids

-- What follows the lookup. `stop_error` is what the worker's `Stop` returns.
abbrev pub disconnect_found :
    (Worker → Option ServerError)
    → BaseServer
    → UidWids
    → Chans
    → ℕ
    → Option Worker
    → Option ServerError × BaseServer × UidWids × Chans
disconnect_found stop_error s uids ch wid none = (some worker_not_found, s, uids, ch)
disconnect_found stop_error s uids ch wid (some w) =
    let (uids', m) = del uids s.manager wid in
    (
      stop_error w,
      record s { manager = m },
      uids',
      update ch w.ref (record (ch w.ref) { stopping = true }),
    )

pub disconnect :
    (Worker → Option ServerError)
    → BaseServer
    → UidWids
    → Chans
    → ℕ
    → Option ServerError × BaseServer × UidWids × Chans
disconnect stop_error s uids ch wid =
    if s.on_stopping
    then (some is_stopped, s, uids, ch)
    else disconnect_found stop_error s uids ch wid (worker s.manager wid)

-- `w[i]`, which is always in range.
abbrev pub inspector {ℓ} : {F : Type ℓ} → List (F → F) → ℕ → F → F
inspector [] i f = f
inspector (w ∷ ws) zero f = w f
inspector (w ∷ ws) (suc i) f = inspector ws i f

-- `Wrap`: the loop from the last inspector down to the first.
unfoldable pub wrap_from {ℓ} : {F : Type ℓ} → List (F → F) → ℕ → F → F
wrap_from ws zero f = f
wrap_from ws (suc i) f = wrap_from ws i (inspector ws i f)

pub wrap {ℓ} : {F : Type ℓ} → List (F → F) → F → F
unfolding wrap_from
wrap ws f = wrap_from ws (length ws) f
