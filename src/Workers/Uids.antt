-- ===== src/Workers/Uids.antt =====
-- internal/workermanager.go: the map from user ids to worker ids over histories of calls, and `GetByUID`.
use fabrica_net.Base.{
  ℕ, ◌^◌, ◌<◌, ◌≡◌, refl, sym, ap, ◌∙◌, fun_ext, inl, inr, Option, none, some, List, [], ◌∷◌, ◌==◌,
  if◌then◌else◌, Bool-cases, Option-cases, ℤ,
}
use fabrica_net.Workers.{
  Worker, int64_key, uint64_key, eq_ℤ, load, delete, UidWids, new_worker_manager, worker, del,
  get_by_uid,
}
use fabrica_net.Workers.Maps.{load-store}
use fabrica_net.Workers.Shard.{
  IsSharded, new_worker_manager-IsSharded, worker-new, put-absent, put-present,
}
use fabrica_net.Workers.History.{
  Call, put_call, del_call, Both, call, calls, call_spec, calls_spec, call-IsSharded, worker-call,
  worker-calls,
}

-- The worker id of a user after a call, at the map `s` of workers and `f` from users before it.
abbrev pub uid_spec : Call → (ℕ → Option Worker) → (ℤ → Option ℕ) → ℤ → Option ℕ
uid_spec (put_call w) s f u = elim (s w.wid) [
  | some old ↦ f u
  | none ↦ if eq_ℤ w.uid u then some w.wid else f u
]
uid_spec (del_call wid) s f u = f u

unfoldable pub uids_spec : List Call → (ℕ → Option Worker) → (ℤ → Option ℕ) → ℤ → Option ℕ
uids_spec [] s f = f
uids_spec (c ∷ cs) s f = uids_spec cs (call_spec c s) (uid_spec c s f)

-- A uint64 key is equal to no int64 key, so that the deletion finds nothing.
load-delete_uint64 :
    (u : ℤ) (wid : ℕ) (uids : UidWids)
    → load (int64_key u) (delete (uint64_key wid) uids) ≡ load (int64_key u) uids
load-delete_uint64 u wid [] = refl
load-delete_uint64 u wid ((int64_key i, x) ∷ uids) = rw (load-delete_uint64 u wid uids) refl
load-delete_uint64 u wid ((uint64_key i, x) ∷ uids) = elim (Bool-cases (i == wid)) [
  | inl e ↦ rw e refl
  | inr e ↦ rw e (load-delete_uint64 u wid uids)
]

-- The users of a process-wide map.
abbrev pub wid_of : UidWids → ℤ → Option ℕ
wid_of uids u = load (int64_key u) uids

pub wid_of-call :
    (c : Call) (s : Both) (u : ℤ) → wid_of (call c s).0 u ≡ uid_spec c (worker s.1) (wid_of s.0) u
unfolding del
wid_of-call (del_call wid) (uids, m) u = load-delete_uint64 u wid uids
wid_of-call (put_call w) (uids, m) u = elim (Option-cases (worker m w.wid)) [
  | inl e ↦
      ap (λ r. wid_of r.1 u) (put-absent uids m w e)
      ∙ load-store (int64_key w.uid) (int64_key u) w.wid uids
      ∙ sym (
          ap
            (λ o. elim o [
              | some old ↦ wid_of uids u
              | none ↦ if eq_ℤ w.uid u then some w.wid else wid_of uids u
            ])
            e)
  | inr (old, e) ↦
      ap (λ r. wid_of r.1 u) (put-present uids m w old e)
      ∙ sym (
          ap
            (λ o. elim o [
              | some old ↦ wid_of uids u
              | none ↦ if eq_ℤ w.uid u then some w.wid else wid_of uids u
            ])
            e)
]

wid_of-calls :
    (cs : List Call) (s : Both) (u : ℤ)
    → IsSharded s.1
    → wid_of (calls cs s).0 u ≡ uids_spec cs (worker s.1) (wid_of s.0) u
unfolding calls uids_spec
wid_of-calls [] s u v = refl
wid_of-calls (c ∷ cs) s u v =
    wid_of-calls cs (call c s) u (call-IsSharded c s v)
    ∙ ap (λ f. uids_spec cs f (wid_of (call c s).0) u) (fun_ext (λ j. worker-call c s j v))
    ∙ ap (λ f. uids_spec cs (call_spec c (worker s.1)) f u) (fun_ext (λ x. wid_of-call c s x))

-- After every history of `Put` and `Del` from a new manager (of at least 1 and below 2^64 shards) and
-- any process-wide map, `GetByUID` looks up, among the workers that are left, the id of the last
-- worker of that user that `Put` accepted, or else the id that the map held at the start: `Del` never
-- removes a user.
pub get_by_uid-calls :
    (n : ℕ) (uids : UidWids) (cs : List Call) (u : ℤ)
    → 0 < n
    → n < 2 ^ 64
    → (let (uids', m) = calls cs (uids, new_worker_manager n) in get_by_uid uids' m u)
      ≡ (elim (uids_spec cs (λ i. none) (wid_of uids) u) [
        | none ↦ none
        | some wid ↦ calls_spec cs (λ i. none) wid
      ])
unfolding get_by_uid worker
get_by_uid-calls n uids cs u h s =
    let m = (calls cs (uids, new_worker_manager n)).1 in
    ap (λ o. elim o [ none ↦ none | some wid ↦ worker m wid ])
      (wid_of-calls cs (uids, new_worker_manager n) u (new_worker_manager-IsSharded n h s)
        ∙ ap (λ f. uids_spec cs f (wid_of uids) u) (fun_ext (λ i. worker-new n i)))
    ∙ ap (λ f. elim (uids_spec cs (λ i. none) (wid_of uids) u) [ none ↦ none | some wid ↦ f wid ])
        (fun_ext (λ j. worker-calls n uids cs j h s))
