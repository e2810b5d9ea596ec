-- ===== src/Workers/History.antt =====
-- internal/workermanager.go: the map of workers over histories of `Put` and `Del`.
use fabrica_net.Base.{ℕ, ◌^◌, ◌<◌, ◌≡◌, refl, ap, ◌∙◌, fun_ext, Option, none, List, [], ◌∷◌}
use fabrica_net.Workers.{Worker, UidWids, Manager, new_worker_manager, worker, put, del}
use fabrica_net.Workers.Shard.{
  IsSharded, new_worker_manager-IsSharded, worker-new, put_spec, del_spec, worker-put, worker-del,
  put-IsSharded, del-IsSharded,
}

-- The calls that change a manager.
pub data Call : Type 0 where
  put_call : Worker → Call
  del_call : ℕ → Call

abbrev pub Both : Type 0
Both = UidWids × Manager

abbrev pub call : Call → Both → Both
call (put_call w) (uids, m) = let (old, uids', m') = put uids m w in (uids', m')
call (del_call wid) (uids, m) = del uids m wid

unfoldable pub calls : List Call → Both → Both
calls [] s = s
calls (c ∷ cs) s = calls cs (call c s)

-- The same calls at a map from worker ids.
abbrev pub call_spec : Call → (ℕ → Option Worker) → ℕ → Option Worker
call_spec (put_call w) s = put_spec w s
call_spec (del_call wid) s = del_spec wid s

unfoldable pub calls_spec : List Call → (ℕ → Option Worker) → ℕ → Option Worker
calls_spec [] s = s
calls_spec (c ∷ cs) s = calls_spec cs (call_spec c s)

pub call-IsSharded : (c : Call) (s : Both) → IsSharded s.1 → IsSharded (call c s).1
call-IsSharded (put_call w) (uids, m) v = put-IsSharded uids m w v
call-IsSharded (del_call wid) (uids, m) v = del-IsSharded uids m wid v

pub calls-IsSharded : (cs : List Call) (s : Both) → IsSharded s.1 → IsSharded (calls cs s).1
unfolding calls
calls-IsSharded [] s v = v
calls-IsSharded (c ∷ cs) s v = calls-IsSharded cs (call c s) (call-IsSharded c s v)

pub worker-call :
    (c : Call) (s : Both) (j : ℕ)
    → IsSharded s.1
    → worker (call c s).1 j ≡ call_spec c (worker s.1) j
worker-call (put_call w) (uids, m) j v = worker-put uids m w j v
worker-call (del_call wid) (uids, m) j v = worker-del uids m wid j v

worker-calls_from :
    (cs : List Call) (s : Both) (j : ℕ)
    → IsSharded s.1
    → worker (calls cs s).1 j ≡ calls_spec cs (worker s.1) j
unfolding calls calls_spec
worker-calls_from [] s j v = refl
worker-calls_from (c ∷ cs) s j v =
    worker-calls_from cs (call c s) j (call-IsSharded c s v)
    ∙ ap (λ f. calls_spec cs f j) (fun_ext (λ i. worker-call c s i v))

-- From a new manager of any number of shards (of at least 1 and below 2^64, powers of two or not),
-- every history of `Put` and `Del` answers `Worker` as one map from worker ids does: `Put` keeps the
-- first worker of an id, and `Del` removes it; what the process-wide map holds at the start is of no
-- effect.
pub worker-calls :
    (n : ℕ) (uids : UidWids) (cs : List Call) (j : ℕ)
    → 0 < n
    → n < 2 ^ 64
    → worker (calls cs (uids, new_worker_manager n)).1 j ≡ calls_spec cs (λ i. none) j
worker-calls n uids cs j h s =
    worker-calls_from cs (uids, new_worker_manager n) j (new_worker_manager-IsSharded n h s)
    ∙ ap (λ f. calls_spec cs f j) (fun_ext (λ i. worker-new n i))
