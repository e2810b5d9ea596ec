-- ===== src/Work.antt =====
-- internal/server.go: `work`, the life of one connection, with `addWorker` and `delWorker`, on the worker
-- manager; `acceptLoop`, which starts it; `Start` and `Stop` of the server. `Start` is that of `Life`. What the inspectors, `Run` and the
-- stopping of a worker return is a parameter, and so is what the other goroutines do to the manager
-- while this one runs.
pub mod Order
pub mod Registry
pub mod Stopping
pub mod Together
mod Tests
use fabrica_net.Base.{
  ℕ, Bool, true, false, Option, none, some, List, [], ◌∷◌, ◌++◌, if◌then◌else◌, ℤ, pos_part,
}
use fabrica_net.Session.{Session, default_session}
use fabrica_net.Life.{WorkerError}
use fabrica_net.Life
use fabrica_net.Workers.{Worker, UidWids, Manager, put, del, walk}

pub data Event : Type 0 where
  starts puts after_connect runs : Event
  stops : (ref : ℕ) → Event  -- a worker
  removes : (wid : ℕ) → Event  -- from the manager
  after_disconnect : Event

pub data WorkError : Type 0 where
  start_failed : WorkerError → WorkError
  old_stop_failed after_connect_failed run_failed stop_failed after_disconnect_failed : WorkError

abbrev pub State : Type 0
State = UidWids × Manager

pub record Outside : Type 0 where
  pub old_stops : Worker → Bool
  pub connects : Bool  -- `AfterConnect`
  pub runs : Bool
  pub stops : Bool
  pub disconnects : Bool  -- `AfterDisconnect`
  pub others : State → State

-- The errors joined, in their order.
abbrev pub Result : Type 0
Result = List WorkError × State × List Event

abbrev pub failed_unless : Bool → WorkError → List WorkError
failed_unless ok err = if ok then [] else err ∷ []

-- The two statements behind `defer s.delWorker`, and then the removal.
pub serve : Outside → Worker → State → Result
serve o w s =
    let removed = (let (uids, m) = o.others s in del uids m w.wid) in
    if o.connects
    then (failed_unless o.runs run_failed, removed, after_connect ∷ runs ∷ removes w.wid ∷ [])
    else (after_connect_failed ∷ [], removed, after_connect ∷ removes w.wid ∷ [])

abbrev pub traced : List Event → Result → Result
traced before (errs, s, t) = (errs, s, before ++ t)

-- `addWorker`, which stops a worker that had the id, and what follows it.
abbrev pub added : Outside → Worker → Option Worker × State → Result
added o w (none, s) = traced (puts ∷ []) (serve o w s)
added o w (some old, s) =
    if o.old_stops old
    then traced (puts ∷ stops old.ref ∷ []) (serve o w s)
    else (old_stop_failed ∷ [], s, puts ∷ stops old.ref ∷ [])

pub add_worker : Outside → Worker → State → Result
unfolding serve
add_worker o w (uids, m) = let (old, uids', m') = put uids m w in added o w (old, (uids', m'))

-- What the manager knows of a worker with a session.
abbrev pub worker_of : ℕ → ℕ → Session → Worker
worker_of ref wid s = record { ref = ref; wid = wid; uid = s.uid; sid = s.sid; color = s.color }

-- The body of `work`, of what `Start` returned.
abbrev pub after_start : Outside → ℕ → ℕ → State → Option WorkerError × Session → Result
after_start o ref wid s (some err, session) = (start_failed err ∷ [], s, starts ∷ [])
after_start o ref wid s (none, session) =
    traced (starts ∷ []) (add_worker o (worker_of ref wid session) s)

-- The deferred function.
abbrev pub finish : Outside → ℕ → Result → Result
finish o ref (errs, s, t) = (
  errs
      ++ (failed_unless o.stops stop_failed ++ failed_unless o.disconnects after_disconnect_failed),
  s,
  t ++ (stops ref ∷ after_disconnect ∷ []),
)

-- `work`, of a new worker `ref`; its session is new at the time `now`.
pub work : Life.Answers → Outside → ℤ → ℕ → ℕ → State → Result
unfolding add_worker
work e o now ref wid s =
    let (err, (session, connected), t) = Life.start e (default_session now) in
    finish o ref (after_start o ref wid s (err, session))

-- A turn of `acceptLoop`: the server stops, the context has ended, or `accept`, of the id of the
-- connection that the listener gave, or none for its error, which is logged.
pub data AcceptTurn : Type 0 where
  accept_stop accept_done : AcceptTurn
  accepts : Option ℕ → AcceptTurn

pub data AcceptEnd : Type 0 where
  stop_triggered context_done : AcceptEnd

abbrev pub served_too : Option ℕ → List ℕ → List ℕ
served_too none ids = ids
served_too (some id) ids = id ∷ ids

-- Over so many turns: how the loop has ended, and the ids for which it has started `work` in a
-- goroutine.
pub accept_loop : List AcceptTurn → Option AcceptEnd × List ℕ
accept_loop [] = (none, [])
accept_loop (accept_stop ∷ ts) = (some stop_triggered, [])
accept_loop (accept_done ∷ ts) = (some context_done, [])
accept_loop (accepts o ∷ ts) = let (end, ids) = accept_loop ts in (end, served_too o ids)

-- `Start` of the server: whether the listener starts, and the number of accepting loops.
pub start_server : Bool → ℤ → Bool × ℕ
start_server listens worker_size = if listens then (true, pos_part worker_size) else (false, 0)

-- `Stop` of the server, at its first call: the workers that it stops, each in a goroutine whose error
-- is logged, and then the listener, whose error it returns; a listener that is nil is none.
pub stop_server : Option Bool → Manager → Bool × List ℕ
stop_server listener m = (
  elim listener [ none ↦ true | some closes ↦ closes ],
  walk (λ w refs. (true, refs ++ w.ref ∷ [])) m [],
)
