-- ===== src/Workers/Tests.antt =====
-- internal/workermanager.go: the theorems on workers at two workers in three buckets.
use fabrica_net.Base.{
  ℕ, ◌≡◌, refl, none, some, List, [], ◌∷◌, if◌then◌else◌, ◌==◌, arith, ℤ, pos, negsuc, ◌+ℤ◌,
}
use fabrica_net.Workers.{
  Worker, int64_key, load, new_worker_manager, worker, put, del, get_by_uid, get_by_uids, wyhash,
  get_bucket_key,
}
use fabrica_net.Workers.Shard.{IsSharded, new_worker_manager-IsSharded}
use fabrica_net.Workers.History.{
  Call, put_call, del_call, calls, calls_spec, calls-IsSharded, worker-calls,
}
use fabrica_net.Workers.Size.{total}
use fabrica_net.Workers.Uids.{uids_spec, get_by_uid-calls}
use fabrica_net.Workers.Owner.{IsUserMap, calls-IsUserMap, new-IsUserMap}
use fabrica_net.Workers.Collect.{asked}
use fabrica_net.Workers.Batch.{get_by_uids-get_by_uid}

abbrev ann : Worker
ann = record { ref = 1; wid = 17; uid = pos 100; sid = pos 1; color = [] }

abbrev bob : Worker
bob = record { ref = 2; wid = 33; uid = negsuc 4; sid = pos 1; color = [] }

-- `Put` of both, and ann deleted twice.
abbrev history : List Call
history = put_call ann ∷ put_call bob ∷ del_call 17 ∷ del_call 17 ∷ []

abbrev owner : ℕ → ℤ
owner wid = if wid == 17 then pos 100 else negsuc 4

hashed : wyhash 1 ≡ 0xb456bcfc34c2cb2c
unfolding wyhash
hashed = refl

worker-calls_example : worker (calls history ([], new_worker_manager 3)).1 33 ≡ some bob
unfolding calls_spec
worker-calls_example = worker-calls 3 [] history 33 (omega arith) (omega arith)

drifted :
    ((calls history ([], new_worker_manager 3)).1.size ≡ pos 0)
    × (total (calls history ([], new_worker_manager 3)).1.buckets ≡ 1)
unfolding calls put del new_worker_manager get_bucket_key wyhash ◌+ℤ◌
drifted = (refl, refl)

get_by_uid-calls_example :
    (let (uids, m) = calls history ([], new_worker_manager 3) in get_by_uid uids m (negsuc 4))
    ≡ some bob
unfolding calls_spec uids_spec
get_by_uid-calls_example = get_by_uid-calls 3 [] history (negsuc 4) (omega arith) (omega arith)

found_bob_run :
    (let (uids, m) = calls history ([], new_worker_manager 3) in get_by_uid uids m (negsuc 4))
    ≡ some bob
unfolding calls put del new_worker_manager get_bucket_key wyhash get_by_uid
found_bob_run = refl

still-IsSharded : IsSharded (calls history ([], new_worker_manager 3)).1
still-IsSharded =
    calls-IsSharded history ([], new_worker_manager 3)
      (new_worker_manager-IsSharded 3 (omega arith) (omega arith))

still-IsUserMap :
    IsUserMap owner
      (calls history ([], new_worker_manager 3)).0
      (calls history ([], new_worker_manager 3)).1
still-IsUserMap =
    calls-IsUserMap owner history ([], new_worker_manager 3)
      (new_worker_manager-IsSharded 3 (omega arith) (omega arith)) (refl, (refl, (tt, (tt, tt))))
      (new-IsUserMap owner 3 [] (λ x wid e. absurd (ground arith)))

get_by_uids-get_by_uid_example :
    load (int64_key (negsuc 4)) (
      get_by_uids
        (calls history ([], new_worker_manager 3)).0
        (calls history ([], new_worker_manager 3)).1
        (pos 100 ∷ negsuc 4 ∷ []))
    ≡ (if asked (negsuc 4) (pos 100 ∷ negsuc 4 ∷ [])
        then get_by_uid
            (calls history ([], new_worker_manager 3)).0
            (calls history ([], new_worker_manager 3)).1
            (negsuc 4)
        else none)
get_by_uids-get_by_uid_example =
    get_by_uids-get_by_uid owner (calls history ([], new_worker_manager 3)).0
      (calls history ([], new_worker_manager 3)).1 still-IsSharded still-IsUserMap
      (pos 100 ∷ negsuc 4 ∷ []) (negsuc 4)

abbrev carl : Worker
carl = record { ref = 3; wid = 17; uid = pos 7; sid = pos 1; color = [] }

-- A worker id that is used again makes `GetByUID` of the first user return the second user's worker.
stale_user :
    (let (uids, m) =
        calls (put_call ann ∷ del_call 17 ∷ put_call carl ∷ []) ([], new_worker_manager 4) in
      get_by_uid uids m (pos 100))
    ≡ some carl
unfolding calls put del new_worker_manager get_bucket_key wyhash get_by_uid
stale_user = refl
