-- ===== src/Workers/Owner.antt =====
-- internal/workermanager.go: `GetByUID` when no worker id is used again for another user.
use fabrica_net.Base.{
  ℕ, ◌^◌, ◌<◌, ◌≡◌, sym, ap, ◌∙◌, inl, inr, Option, none, some, List, [], ◌∷◌, ◌==◌, if◌then◌else◌,
  Bool-cases, Option-cases, some_inj, arith, All, ℤ,
}
use fabrica_net.Workers.{
  Worker, int64_key, eq_ℤ, load, UidWids, Manager, new_worker_manager, worker, get_by_uid,
}
use fabrica_net.Workers.Maps.{eq_ℤ→≡}
use fabrica_net.Workers.Shard.{
  IsSharded, new_worker_manager-IsSharded, worker-new, put_spec-absent, put_spec-present,
}
use fabrica_net.Workers.History.{
  Call, put_call, del_call, Both, call, calls, call_spec, call-IsSharded, worker-call,
}
use fabrica_net.Workers.Uids.{uid_spec, wid_of, wid_of-call}

-- Each worker id is of one user.
abbrev pub Obeys : (ℕ → ℤ) → Call → Type 0
Obeys owner (put_call w) = w.uid ≡ owner w.wid
Obeys owner (del_call wid) = Unit

pub record IsUserMap (owner : ℕ → ℤ) (uids : UidWids) (m : Manager) : Type 0 where
  pub of_map : (u : ℤ) (wid : ℕ) → wid_of uids u ≡ some wid → owner wid ≡ u
  pub of_worker : (wid : ℕ) (w : Worker) → worker m wid ≡ some w → w.uid ≡ owner wid

module _ (owner : ℕ → ℤ) where
  uid_spec-Obeys :
      (c : Call) (s : ℕ → Option Worker) (f : ℤ → Option ℕ)
      → Obeys owner c
      → ((u : ℤ) (wid : ℕ) → f u ≡ some wid → owner wid ≡ u)
      → (u : ℤ) (wid : ℕ) → uid_spec c s f u ≡ some wid
      → owner wid ≡ u
  uid_spec-Obeys (del_call x) s f o h u wid e = h u wid e
  uid_spec-Obeys (put_call w) s f o h u wid e = elim (Option-cases (s w.wid)) [
    | inl a ↦
        let e' : (if eq_ℤ w.uid u then some w.wid else f u) ≡ some wid =
          sym (
            ap (λ q. elim q [ some old ↦ f u | none ↦ if eq_ℤ w.uid u then some w.wid else f u ]) a)
          ∙ e in
        elim (Bool-cases (eq_ℤ w.uid u)) [
          | inl y ↦
              let q : w.wid ≡ wid =
                some_inj (sym (ap (λ b. if b then some w.wid else f u) y) ∙ e') in
              ap owner (sym q) ∙ sym o ∙ eq_ℤ→≡ w.uid u y
          | inr n ↦ h u wid (sym (ap (λ b. if b then some w.wid else f u) n) ∙ e')
        ]
    | inr (old, a) ↦ h u wid (
        sym
          (ap (λ q. elim q [ some old ↦ f u | none ↦ if eq_ℤ w.uid u then some w.wid else f u ]) a)
        ∙ e)
  ]

  call_spec-Obeys :
      (c : Call) (s : ℕ → Option Worker)
      → Obeys owner c
      → ((wid : ℕ) (w : Worker) → s wid ≡ some w → w.uid ≡ owner wid)
      → (wid : ℕ) (w : Worker) → call_spec c s wid ≡ some w
      → w.uid ≡ owner wid
  call_spec-Obeys (del_call x) s o h wid w e = elim (Bool-cases (x == wid)) [
    | inl y ↦ absurd (ground arith)
    | inr n ↦ h wid w (ground arith)
  ]
  call_spec-Obeys (put_call v) s o h wid w e = elim (Option-cases (s v.wid)) [
    | inl a ↦
        let e' : (if v.wid == wid then some v else s wid) ≡ some w =
          sym (put_spec-absent v s wid a) ∙ e in
        elim (Bool-cases (v.wid == wid)) [
          | inl y ↦
              let q : v.wid ≡ wid = ground arith in
              let p : v ≡ w = some_inj (sym (ap (λ b. if b then some v else s wid) y) ∙ e') in
              ap (λ x. x.uid) (sym p) ∙ o ∙ ap owner q
          | inr n ↦ h wid w (sym (ap (λ b. if b then some v else s wid) n) ∙ e')
        ]
    | inr (old, a) ↦ h wid w (sym (put_spec-present v old s wid a) ∙ e)
  ]

  call-IsUserMap :
      (c : Call) (s : Both)
      → IsSharded s.1
      → Obeys owner c
      → IsUserMap owner s.0 s.1
      → IsUserMap owner (call c s).0 (call c s).1
  call-IsUserMap c s v o k = record {
    of_map = λ u wid e.
        uid_spec-Obeys c (worker s.1) (wid_of s.0) o k.of_map u wid (sym (wid_of-call c s u) ∙ e);
    of_worker = λ wid w e.
        call_spec-Obeys c (worker s.1) o k.of_worker wid w (sym (worker-call c s wid v) ∙ e);
  }

  pub calls-IsUserMap :
      (cs : List Call) (s : Both)
      → IsSharded s.1
      → All (Obeys owner) cs
      → IsUserMap owner s.0 s.1
      → IsUserMap owner (calls cs s).0 (calls cs s).1
  unfolding calls
  calls-IsUserMap [] s v o k = k
  calls-IsUserMap (c ∷ cs) s v o k =
      calls-IsUserMap cs (call c s) (call-IsSharded c s v) o.1 (call-IsUserMap c s v o.0 k)

  pub new-IsUserMap :
      (n : ℕ) (uids : UidWids)
      → ((u : ℤ) (wid : ℕ) → wid_of uids u ≡ some wid → owner wid ≡ u)
      → IsUserMap owner uids (new_worker_manager n)
  new-IsUserMap n uids h = record {
    of_map = h;
    of_worker = λ wid w e. absurd (let q : none ≡ some w = sym (worker-new n wid) ∙ e in cc);
  }

  pub get_by_uid-IsUserMap :
      (uids : UidWids) (m : Manager) (u : ℤ) (w : Worker)
      → IsUserMap owner uids m
      → get_by_uid uids m u ≡ some w
      → w.uid ≡ u
  unfolding get_by_uid worker
  get_by_uid-IsUserMap uids m u w k e = elim (Option-cases (load (int64_key u) uids)) [
    | inl a ↦
        let q : none ≡ some w =
          sym (ap (λ o. elim o [ none ↦ none | some x ↦ worker m x ]) a) ∙ e in
        absurd cc
    | inr (wid, a) ↦
        let q : worker m wid ≡ some w =
          sym (ap (λ o. elim o [ none ↦ none | some x ↦ worker m x ]) a) ∙ e in
        k.of_worker wid w q ∙ k.of_map u wid a
  ]

-- If each worker id is of one user, in the map at the start and in every worker put, then after every
-- history of `Put` and `Del` from a new manager (of at least 1 and below 2^64 shards) the worker that
-- `GetByUID` returns is the user's.
pub get_by_uid-own :
    (owner : ℕ → ℤ) (n : ℕ) (uids : UidWids) (cs : List Call) (u : ℤ) (w : Worker)
    → 0 < n
    → n < 2 ^ 64
    → ((x : ℤ) (wid : ℕ) → wid_of uids x ≡ some wid → owner wid ≡ x)
    → All (Obeys owner) cs
    → (let (uids', m) = calls cs (uids, new_worker_manager n) in get_by_uid uids' m u) ≡ some w
    → w.uid ≡ u
get_by_uid-own owner n uids cs u w h s start o e =
    let k =
      calls-IsUserMap owner cs (uids, new_worker_manager n) (new_worker_manager-IsSharded n h s) o
        (new-IsUserMap owner n uids start) in
    get_by_uid-IsUserMap owner _ _ u w k e
