-- ===== src/Frame/Init.antt =====
-- tcp/frame/codec.go, kcp/frame/codec.go and websocket/frame/codec.go: `InitTcpRingPool`,
-- `InitKcpRingPool` and `InitWebSocketRingPool`, which are one function on three packages' variables.
use fabrica_net.Base.{
  ℕ, Bool, true, false, Option, none, some, List, ℤ, if◌then◌else◌, ◌≡◌, ap, ◌∙◌,
}
use fabrica_net.RingPool.{Memory, PoolError, Result, ok, err}
use fabrica_net.MultiPool.{MultiPool, new_multi_size_ring_pool}

-- `once` and `pool`; a pool that is none is a nil pointer.
pub record PoolVariable : Type 0 where
  pub done : Bool
  pub pool : Option MultiPool

-- What the function called once assigns; the result `err` is not returned.
abbrev pub assigned :
    Memory → Result (MultiPool × Memory) → Option PoolError × PoolVariable × Memory
assigned m (err e) = (none, record { done = true; pool = none }, m)
assigned m (ok (mp, m')) = (none, record { done = true; pool = some mp }, m')

pub init_ring_pool : List (ℤ × ℕ) → PoolVariable → Memory → Option PoolError × PoolVariable × Memory
init_ring_pool config v m =
    let first = assigned m (new_multi_size_ring_pool config m) in
    if v.done then (none, v, m) else first

init-first :
    (config : List (ℤ × ℕ)) (v : PoolVariable) (m : Memory)
    → v.done ≡ false
    → init_ring_pool config v m ≡ assigned m (new_multi_size_ring_pool config m)
unfolding init_ring_pool
init-first config v m h =
    ap (λ b. if b then (none, v, m) else assigned m (new_multi_size_ring_pool config m)) h

init-again :
    (config : List (ℤ × ℕ)) (v : PoolVariable) (m : Memory)
    → v.done ≡ true
    → init_ring_pool config v m ≡ (none, v, m)
unfolding init_ring_pool
init-again config v m h =
    ap (λ b. if b then (none, v, m) else assigned m (new_multi_size_ring_pool config m)) h

-- The first initialization with a configuration that `NewMultiSizeRingPool` rejects returns nil, leaves
-- the variable a nil pool, and no later initialization changes that, whatever its configuration.
pub init-rejected :
    (config : List (ℤ × ℕ)) (v : PoolVariable) (m : Memory) (e : PoolError)
    → v.done ≡ false
    → new_multi_size_ring_pool config m ≡ err e
    → let (result, v', m') = init_ring_pool config v m in
      (result ≡ none)
      × (v'.pool ≡ none)
      × ((config' : List (ℤ × ℕ)) (m'' : Memory) → init_ring_pool config' v' m'' ≡ (none, v', m''))
init-rejected config v m e h q =
    let first = init-first config v m h ∙ ap (assigned m) q in
    (
      ap (λ r. r.0) first,
      ap (λ r. r.1.pool) first,
      λ config' m''.
          init-again config' (init_ring_pool config v m).1 m'' (ap (λ r. r.1.done) first),
    )
