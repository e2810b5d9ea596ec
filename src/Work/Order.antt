-- ===== src/Work/Order.antt =====
-- internal/server.go: the order of what `work` does.
use fabrica_net.Base.{ℕ, Option, none, some, List, [], ◌∷◌, if◌then◌else◌, ◌==◌}
use fabrica_net.Session.{Session}
use fabrica_net.Life
use fabrica_net.Work.{Event, starts, puts, after_connect, runs, stops, removes, after_disconnect}

-- How far the life of a connection is.
pub data Phase : Type 0 where
  new started registered serving running removed stopped done : Phase

-- The events allowed in each phase, for the worker `ref` of the id `wid`: none for one that is not.
abbrev pub next : ℕ → ℕ → Phase → Event → Option Phase
next ref wid new starts = some started
next ref wid started puts = some registered
next ref wid started (stops r) = if r == ref then some stopped else none
next ref wid registered (stops r) = if r == ref then some stopped else some registered
next ref wid registered after_connect = some serving
next ref wid serving runs = some running
next ref wid serving (removes w) = if w == wid then some removed else none
next ref wid running (removes w) = if w == wid then some removed else none
next ref wid removed (stops r) = if r == ref then some stopped else none
next ref wid stopped after_disconnect = some done
next _ _ _ _ = none

abbrev pub phase : ℕ → ℕ → List Event → Option Phase → Option Phase
phase ref wid [] p = p
phase ref wid (e ∷ t) none = none
phase ref wid (e ∷ t) (some p) = phase ref wid t (next ref wid p e)
