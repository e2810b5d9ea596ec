-- ===== src/Work/Registry.antt =====
-- internal/server.go: what `work` does to the worker manager.
use fabrica_net.Base.{
  ℕ, Option, none, some, if◌then◌else◌, ℤ, Bool-cases, Option-cases, inl, inr, ◌≢◌, ◌≡◌, ◌∙◌, refl,
  sym, ap, subst,
}
use fabrica_net.Session.{Session, default_session}
use fabrica_net.Life.{WorkerError}
use fabrica_net.Life
use fabrica_net.Workers.{Worker, UidWids, Manager, worker, put, del}
use fabrica_net.Workers.Shard.{
  IsSharded, put_spec, del_spec, worker-put, worker-del, put-IsSharded, put-absent, put-present,
}
use fabrica_net.Work.{State, Outside, serve, added, add_worker, worker_of, after_start, work}

-- A worker is put into the manager, the other goroutines go on from there, and the id is removed.
abbrev pub Served : Outside → Worker → State → State → Type 0
Served o w s s'' =
    (s' : State) × ((j : ℕ) → worker s'.1 j ≡ put_spec w (worker s.1) j)
    × ((j : ℕ) → worker s''.1 j ≡ del_spec w.wid (worker (o.others s').1) j)

-- By what `Start` returned and the worker that had the id.
abbrev pub Registers :
    Outside → ℕ → ℕ → State → Option WorkerError × Session → Option Worker → State → Type 0
Registers o ref wid s (some err, ss) old s'' = s'' ≡ s
Registers o ref wid s (none, ss) none s'' = Served o (worker_of ref wid ss) s s''
Registers o ref wid s (none, ss) (some old) s'' =
    if o.old_stops old then Served o (worker_of ref wid ss) s s'' else s'' ≡ s

serve_leaves :
    (o : Outside) (w : Worker) (s' : State)
    → (serve o w s').1 ≡ del (o.others s').0 (o.others s').1 w.wid
unfolding serve
serve_leaves o w s' = elim (Bool-cases o.connects) [
  | inl y ↦ rw (serve, y) refl
  | inr n ↦ rw (serve, n) refl
]

serve-Served :
    (o : Outside) (w : Worker) (s : State)
    → IsSharded s.1
    → ((s' : State) → IsSharded s'.1 → IsSharded (o.others s').1)
    → Served o w s (serve o w ((put s.0 s.1 w).1, (put s.0 s.1 w).2)).1
serve-Served o w (uids, m) v keeps =
    let s' : State = ((put uids m w).1, (put uids m w).2) in
    (
      s',
      λ j. worker-put uids m w j v,
      λ j.
          ap (λ (r : State). worker r.1 j) (serve_leaves o w s')
          ∙ worker-del (o.others s').0 (o.others s').1 w.wid j
              (keeps s' (put-IsSharded uids m w v)),
    )

added-Registers :
    (o : Outside) (ref wid : ℕ) (ss : Session) (s s' : State) (old : Option Worker)
    → (old ≢ none → s' ≡ s)
    → Served o (worker_of ref wid ss) s (serve o (worker_of ref wid ss) s').1
    → Registers o ref wid s (none, ss) old (added o (worker_of ref wid ss) (old, s')).1
added-Registers o ref wid ss s s' none kept h = h
added-Registers o ref wid ss s s' (some old) kept h = elim (Bool-cases (o.old_stops old)) [
  | inl y ↦ rw (added, y) h
  | inr n ↦ rw (added, n) (kept (λ z. cc))
]

put_finds : (uids : UidWids) (m : Manager) (w : Worker) → (put uids m w).0 ≡ worker m w.wid
put_finds uids m w = elim (Option-cases (worker m w.wid)) [
  | inl a ↦ ap (λ r. r.0) (put-absent uids m w a) ∙ sym a
  | inr (u, p) ↦ ap (λ r. r.0) (put-present uids m w u p) ∙ sym p
]

put_keeps :
    (uids : UidWids) (m : Manager) (w : Worker)
    → worker m w.wid ≢ none
    → ◌≡◌ {A = State} ((put uids m w).1, (put uids m w).2) (uids, m)
put_keeps uids m w h = elim (Option-cases (worker m w.wid)) [
  | inl a ↦ absurd (h a)
  | inr (u, p) ↦
      ap (λ (r : Option Worker × UidWids × Manager). (r.1, r.2)) (put-present uids m w u p)
]

after_start-Registers :
    (o : Outside) (ref wid : ℕ) (s : State) (r : Option WorkerError × Session)
    → IsSharded s.1
    → ((s' : State) → IsSharded s'.1 → IsSharded (o.others s').1)
    → Registers o ref wid s r (worker s.1 wid) (after_start o ref wid s r).1
unfolding add_worker
after_start-Registers o ref wid s (some err, ss) v keeps = refl
after_start-Registers o ref wid (uids, m) (none, ss) v keeps =
    let w = worker_of ref wid ss in
    let s' : State = ((put uids m w).1, (put uids m w).2) in
    subst (λ old. Registers o ref wid (uids, m) (none, ss) (worker m wid) (added o w (old, s')).1)
      (sym (put_finds uids m w))
      (added-Registers o ref wid ss (uids, m) s' (worker m wid) (put_keeps uids m w)
        (serve-Served o w (uids, m) v keeps))

-- On a sharded manager that the other goroutines keep sharded: where `Start` fails, or the id is taken
-- and the worker that has it cannot be stopped, `work` leaves the manager as it is. Else it puts the
-- worker of the session that `Start` gave into the manager, which has no effect if the id is taken, the
-- others go on from there, and in the end, whatever they did and whatever failed, no worker has the id
-- and every other id has the worker that they left.
pub work-Registers :
    (e : Life.Answers) (o : Outside) (now : ℤ) (ref wid : ℕ) (s : State)
    → IsSharded s.1
    → ((s' : State) → IsSharded s'.1 → IsSharded (o.others s').1)
    → let r = Life.start e (default_session now) in
      Registers o ref wid s (r.0, r.1.0) (worker s.1 wid) (work e o now ref wid s).1
unfolding work
work-Registers e o now ref wid s v keeps =
    let r = Life.start e (default_session now) in
    after_start-Registers o ref wid s (r.0, r.1.0) v keeps
