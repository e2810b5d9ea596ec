-- ===== src/Workers/Shard.antt =====
-- internal/workermanager.go: the buckets as one map from worker ids, whatever the hash.
use fabrica_net.Base.{
  ℕ, zero, suc, ◌+◌, ◌-◌, ◌%◌, ◌^◌, ◌<◌, ◌≡◌, refl, sym, ap, ◌∙◌, subst, inl, inr, true, Option,
  none, some, [], ◌==◌, if◌then◌else◌, Bool-cases, Option-cases, arith, length, bit_and-le, get_or,
  get_or-set, length-set, replicate, length-replicate, pos, ◌+ℤ◌, ==_iff,
}
use fabrica_net.Workers.{
  Worker, int64_key, uint64_key, eq_key, load, store, delete, UidWids, Bucket, Manager,
  new_worker_manager, wyhash, get_bucket_key, bucket_of, set_bucket, worker, put, del,
}
use fabrica_net.Workers.Maps.{Unique, load-store, load-delete, store-Unique, delete-Unique}

-- The bucket of any worker id exists, also when the number of buckets is not a power of two.
pub get_bucket_key-lt : (wid n : ℕ) → 0 < n → n < 2 ^ 64 → get_bucket_key wid n < n
unfolding get_bucket_key
get_bucket_key-lt wid n h small =
    let e : (n + 2 ^ 64 - 1) % 2 ^ 64 ≡ n - 1 = omega arith in
    rw e (omega (arith, bit_and-le (wyhash wid) (n - 1)))

pub record IsSharded (m : Manager) : Type 0 where
  pub counted : length m.buckets ≡ m.shard_count
  pub some_shard : 0 < m.shard_count
  pub small : m.shard_count < 2 ^ 64
  pub unique : (i : ℕ) → Unique (get_or m.buckets i [])

pub key_in :
    {m : Manager} (wid : ℕ) → IsSharded m → get_bucket_key wid m.shard_count < length m.buckets
key_in wid v = omega (arith, get_bucket_key-lt wid _ v.some_shard v.small, v.counted)

get_or-replicate : (n i : ℕ) (b : Bucket) → get_or (replicate n b) i b ≡ b
get_or-replicate zero i b = refl
get_or-replicate (suc n) zero b = refl
get_or-replicate (suc n) (suc i) b = get_or-replicate n i b

pub new_worker_manager-IsSharded : (n : ℕ) → 0 < n → n < 2 ^ 64 → IsSharded (new_worker_manager n)
unfolding new_worker_manager
new_worker_manager-IsSharded n h s = record {
  counted = length-replicate n [];
  some_shard = h;
  small = s;
  unique = λ i. subst Unique (sym (get_or-replicate n i [])) tt;
}

pub worker-new : (n wid : ℕ) → worker (new_worker_manager n) wid ≡ none
unfolding worker new_worker_manager
worker-new n wid = ap (load (uint64_key wid)) (get_or-replicate n (get_bucket_key wid n) [])

set_bucket-IsSharded :
    (m : Manager) (wid : ℕ) (b : Bucket) → IsSharded m → Unique b → IsSharded (set_bucket m wid b)
set_bucket-IsSharded m wid b v u =
    let k = get_bucket_key wid m.shard_count in
    record {
      counted = length-set m.buckets k b ∙ v.counted;
      some_shard = v.some_shard;
      small = v.small;
      unique = λ i.
          let e = get_or-set m.buckets k i b [] (key_in wid v) in
          subst Unique (sym e)
            (elim (Bool-cases (k == i)) [ inl y ↦ rw y u | inr n ↦ rw n (v.unique i) ]);
    }

-- A changed bucket, looked up at any worker id.
worker-set_bucket :
    (m : Manager) (wid j : ℕ) (b : Bucket)
    → IsSharded m
    → load (uint64_key j) (bucket_of (set_bucket m wid b) j) ≡ (
        if get_bucket_key wid m.shard_count == get_bucket_key j m.shard_count
        then load (uint64_key j) b
        else load (uint64_key j) (bucket_of m j))
worker-set_bucket m wid j b v =
    ap (load (uint64_key j)) (
      get_or-set m.buckets (get_bucket_key wid m.shard_count) (get_bucket_key j m.shard_count) b []
        (key_in wid v))
    ∙ elim (Bool-cases (get_bucket_key wid m.shard_count == get_bucket_key j m.shard_count)) [
      | inl y ↦ rw y refl
      | inr n ↦ rw n refl
    ]

-- A successful change of one bucket changes one worker id.
worker-changed :
    (m : Manager) (wid j : ℕ) (b : Bucket) (o : Option Worker)
    → IsSharded m
    → load (uint64_key j) b ≡ (
        if eq_key (uint64_key wid) (uint64_key j) then o else load (uint64_key j) (bucket_of m wid))
    → load (uint64_key j) (bucket_of (set_bucket m wid b) j)
      ≡ (if wid == j then o else load (uint64_key j) (bucket_of m j))
worker-changed m wid j b o v e = worker-set_bucket m wid j b v ∙ elim (Bool-cases (wid == j)) [
  | inl y ↦
      let q : wid ≡ j = ground arith in
      let k : (get_bucket_key wid m.shard_count == get_bucket_key j m.shard_count) ≡ true =
        ap (λ x. get_bucket_key wid m.shard_count == get_bucket_key x m.shard_count) (sym q)
        ∙ (==_iff _ _).1 refl in
      rw (k, y) (e ∙ rw y refl)
  | inr n ↦ elim (Bool-cases (get_bucket_key wid m.shard_count == get_bucket_key j m.shard_count)) [
    | inl y ↦
        let k : get_bucket_key wid m.shard_count ≡ get_bucket_key j m.shard_count = ground arith in
        rw (n, y) (e ∙ rw n (ap (λ i. load (uint64_key j) (get_or m.buckets i [])) k))
    | inr d ↦ rw (n, d) refl
  ]
]

-- What `Put` leaves of a worker id that is free.
abbrev pub inserted : UidWids → Manager → Worker → Option Worker × UidWids × Manager
inserted uids m w = (
  none,
  store (int64_key w.uid) w.wid uids,
  record (set_bucket m w.wid (store (uint64_key w.wid) w (bucket_of m w.wid))) {
    size = m.size +ℤ pos 1;
  },
)

pub put-absent :
    (uids : UidWids) (m : Manager) (w : Worker)
    → worker m w.wid ≡ none
    → put uids m w ≡ inserted uids m w
unfolding put worker
put-absent uids m w e = rw (e, put) refl

pub put-present :
    (uids : UidWids) (m : Manager) (w old : Worker)
    → worker m w.wid ≡ some old
    → put uids m w ≡ (some old, uids, m)
unfolding put worker
put-present uids m w old e = rw (e, put) refl

-- `Put` and `Del` at the map of workers by id that the buckets stand for.
abbrev pub put_spec : Worker → (ℕ → Option Worker) → ℕ → Option Worker
put_spec w s j = elim (s w.wid) [ some old ↦ s j | none ↦ if w.wid == j then some w else s j ]

abbrev pub del_spec : ℕ → (ℕ → Option Worker) → ℕ → Option Worker
del_spec wid s j = if wid == j then none else s j

pub put_spec-absent :
    (w : Worker) (s : ℕ → Option Worker) (j : ℕ)
    → s w.wid ≡ none
    → put_spec w s j ≡ (if w.wid == j then some w else s j)
put_spec-absent w s j e = rw (e, put_spec) refl

pub put_spec-present :
    (w old : Worker) (s : ℕ → Option Worker) (j : ℕ) → s w.wid ≡ some old → put_spec w s j ≡ s j
put_spec-present w old s j e = rw (e, put_spec) refl

pub worker-put :
    (uids : UidWids) (m : Manager) (w : Worker) (j : ℕ)
    → IsSharded m
    → worker (put uids m w).2 j ≡ put_spec w (worker m) j
unfolding worker
worker-put uids m w j v = elim (Option-cases (worker m w.wid)) [
  | inl e ↦
      ap (λ r. worker r.2 j) (put-absent uids m w e)
      ∙ worker-changed m w.wid j _ (some w) v
          (load-store (uint64_key w.wid) (uint64_key j) w (bucket_of m w.wid))
      ∙ sym (put_spec-absent w (worker m) j e)
  | inr (old, e) ↦
      ap (λ r. worker r.2 j) (put-present uids m w old e)
      ∙ sym (put_spec-present w old (worker m) j e)
]

pub worker-del :
    (uids : UidWids) (m : Manager) (wid j : ℕ)
    → IsSharded m
    → worker (del uids m wid).1 j ≡ del_spec wid (worker m) j
unfolding worker del
worker-del uids m wid j v = worker-changed m wid j _ none v (
    load-delete (uint64_key wid) (uint64_key j) (bucket_of m wid)
      (v.unique (get_bucket_key wid m.shard_count)))

pub put-IsSharded :
    (uids : UidWids) (m : Manager) (w : Worker) → IsSharded m → IsSharded (put uids m w).2
put-IsSharded uids m w v = elim (Option-cases (worker m w.wid)) [
  | inl e ↦
      let u =
        set_bucket-IsSharded m w.wid (store (uint64_key w.wid) w (bucket_of m w.wid)) v
          (store-Unique (uint64_key w.wid) w (bucket_of m w.wid) (v.unique _)) in
      subst (λ r. IsSharded r.2) (sym (put-absent uids m w e))
        (record {
          counted = u.counted;
          some_shard = v.some_shard;
          small = v.small;
          unique = u.unique;
        })
  | inr (old, e) ↦ subst (λ r. IsSharded r.2) (sym (put-present uids m w old e)) v
]

pub del-IsSharded :
    (uids : UidWids) (m : Manager) (wid : ℕ) → IsSharded m → IsSharded (del uids m wid).1
unfolding del
del-IsSharded uids m wid v =
    let u =
      set_bucket-IsSharded m wid (delete (uint64_key wid) (bucket_of m wid)) v
        (delete-Unique (uint64_key wid) (bucket_of m wid) (v.unique _)) in
    record { counted = u.counted; some_shard = v.some_shard; small = v.small; unique = u.unique }
