-- ===== src/Workers.antt =====
-- internal/workermanager.go: the registered workers, sharded into buckets by a hash of their ids, and
-- the process-wide map from user ids to worker ids.
-- A worker is the pointer `ref` with what the manager reads of it, which the handshake has fixed. A
-- `sync.Map` is an association list; its keys have type `any`, so a key is a number with its type.
pub mod Maps
pub mod Shard
pub mod History
pub mod Size
pub mod Uids
pub mod Owner
pub mod Collect
pub mod Distribute
pub mod Batch
mod Tests
use fabrica_net.Base.{
  ℕ, zero, suc, ◌+◌, ◌-◌, ◌*◌, ◌/◌, ◌%◌, ◌^◌, bit_and, bit_xor, Bool, true, false, Option, none,
  some, List, [], ◌∷◌, ◌++◌, ◌==◌, if◌then◌else◌, ℤ, pos, negsuc, ◌+ℤ◌, get_or, set, replicate,
  lookup, pos_part, neg_part,
}

pub record Worker : Type 0 where
  pub ref : ℕ
  pub wid : ℕ  -- uint64
  pub uid : ℤ  -- int64
  pub sid : ℤ
  pub color : List ℕ

-- A key of a `sync.Map`: equal only at the same type.
pub data Key : Type 0 where
  int64_key : ℤ → Key
  uint64_key : ℕ → Key

abbrev pub eq_ℤ : ℤ → ℤ → Bool
eq_ℤ (pos a) (pos b) = a == b
eq_ℤ (negsuc a) (negsuc b) = a == b
eq_ℤ _ _ = false

abbrev pub eq_key : Key → Key → Bool
eq_key (int64_key a) (int64_key b) = eq_ℤ a b
eq_key (uint64_key a) (uint64_key b) = a == b
eq_key _ _ = false

-- `Load`, `Store` and `Delete` at such keys.
abbrev pub load {ℓ} : {V : Type ℓ} → Key → List (Key × V) → Option V
load k [] = none
load k ((j, v) ∷ d) = if eq_key j k then some v else load k d

abbrev pub store {ℓ} : {V : Type ℓ} → Key → V → List (Key × V) → List (Key × V)
store k v [] = (k, v) ∷ []
store k v ((j, w) ∷ d) = if eq_key j k then (k, v) ∷ d else (j, w) ∷ store k v d

abbrev pub delete {ℓ} : {V : Type ℓ} → Key → List (Key × V) → List (Key × V)
delete k [] = []
delete k ((j, w) ∷ d) = if eq_key j k then d else (j, w) ∷ delete k d

abbrev pub UidWids : Type 0
UidWids = List (Key × ℕ)

abbrev pub Bucket : Type 0
Bucket = List (Key × Worker)

pub record Manager : Type 0 where
  pub buckets : List Bucket
  pub size : ℤ
  pub shard_count : ℕ

-- `uint64(c.BucketSize)` of a size that is not negative.
pub new_worker_manager : ℕ → Manager
new_worker_manager n = record { buckets = replicate n []; size = pos 0; shard_count = n }

abbrev word : ℕ
word = 2 ^ 64

pub wyhash : ℕ → ℕ
wyhash key =
    let a = bit_xor key (key / 2 ^ 33) in
    let b = a * 0xff51afd7ed558ccd % word in
    let c = bit_xor b (b / 2 ^ 33) in
    let d = c * 0xc4ceb9fe1a85ec53 % word in bit_xor d (d / 2 ^ 33)

-- uint64 `shardCount - 1` wraps at 0.
pub get_bucket_key : ℕ → ℕ → ℕ
get_bucket_key wid shards = bit_and (wyhash wid) ((shards + word - 1) % word)

-- An index out of range panics in the source; `Shard` shows that it does not occur.
abbrev pub bucket_of : Manager → ℕ → Bucket
bucket_of m wid = get_or m.buckets (get_bucket_key wid m.shard_count) []

abbrev pub set_bucket : Manager → ℕ → Bucket → Manager
set_bucket m wid b = record m { buckets = set m.buckets (get_bucket_key wid m.shard_count) b }

-- `Worker(wid)`
pub worker : Manager → ℕ → Option Worker
worker m wid = load (uint64_key wid) (bucket_of m wid)

-- `Put`: the worker that was there already, the global map and the manager.
pub put : UidWids → Manager → Worker → Option Worker × UidWids × Manager
put uids m w = elim (load (uint64_key w.wid) (bucket_of m w.wid)) [
  | some old ↦ (some old, uids, m)
  | none ↦ (
    none,
    store (int64_key w.uid) w.wid uids,
    record (set_bucket m w.wid (store (uint64_key w.wid) w (bucket_of m w.wid))) {
      size = m.size +ℤ pos 1;
    },
  )
]

-- `Del`: the global map is keyed by int64, and `wid` is a uint64.
pub del : UidWids → Manager → ℕ → UidWids × Manager
del uids m wid = (
  delete (uint64_key wid) uids,
  record (set_bucket m wid (delete (uint64_key wid) (bucket_of m wid))) {
    size = m.size +ℤ negsuc 0;
  },
)

pub get_by_uid : UidWids → Manager → ℤ → Option Worker
get_by_uid uids m uid = elim (load (int64_key uid) uids) [
  | none ↦ none
  | some wid ↦ load (uint64_key wid) (bucket_of m wid)
]

-- The loops of `GetByUIDs`: the worker ids, their distribution over the buckets, and the lookups.
pub wids_of : UidWids → List ℤ → List ℕ
wids_of uids [] = []
wids_of uids (u ∷ us) =
    let rest = wids_of uids us in
    elim (load (int64_key u) uids) [ none ↦ rest | some wid ↦ wid ∷ rest ]

abbrev pub append_at : List (List ℕ) → ℕ → ℕ → List (List ℕ)
append_at keys k wid = set keys k (get_or keys k [] ++ wid ∷ [])

pub distribute : ℕ → List ℕ → List (List ℕ) → List (List ℕ)
distribute shards [] keys = keys
distribute shards (wid ∷ wids) keys =
    distribute shards wids (append_at keys (get_bucket_key wid shards) wid)

-- One bucket's lookups; the result is keyed by user id.
pub load_all : Bucket → List ℕ → List (Key × Worker) → List (Key × Worker)
load_all bucket [] result = result
load_all bucket (wid ∷ wids) result = load_all bucket wids (elim (load (uint64_key wid) bucket) [
  | none ↦ result
  | some w ↦ store (int64_key w.uid) w result
])

pub collect : List Bucket → List (List ℕ) → List (Key × Worker) → List (Key × Worker)
unfolding load_all
collect (b ∷ buckets) (wids ∷ keys) result = collect buckets keys (load_all b wids result)
collect [] keys result = result
collect (b ∷ buckets) [] result = result

pub get_by_uids : UidWids → Manager → List ℤ → List (Key × Worker)
unfolding wids_of distribute collect
get_by_uids uids m us =
    collect m.buckets (distribute m.shard_count (wids_of uids us) (replicate m.shard_count [])) []

-- `Walk`: `f` is called on each worker in turn until it returns false; the state is what it captures.
unfoldable pub walk_bucket {ℓ} : {S : Type ℓ} → (Worker → S → Bool × S) → Bucket → S → Bool × S
walk_bucket f [] s = (true, s)
walk_bucket f ((k, w) ∷ b) s =
    let (on, s') = f w s in let rest = walk_bucket f b s' in if on then rest else (false, s')

unfoldable pub walk_buckets {ℓ} : {S : Type ℓ} → (Worker → S → Bool × S) → List Bucket → S → S
unfolding walk_bucket
walk_buckets f [] s = s
walk_buckets f (b ∷ bs) s =
    let (on, s') = walk_bucket f b s in let rest = walk_buckets f bs s' in if on then rest else s'

unfoldable pub walk {ℓ} : {S : Type ℓ} → (Worker → S → Bool × S) → Manager → S → S
unfolding walk_buckets
walk f m s = walk_buckets f m.buckets s
