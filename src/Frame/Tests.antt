-- ===== src/Frame/Tests.antt =====
-- The initialization of the pools of the codecs, with a capacity that is no power of two.
use fabrica_net.Base.{ℕ, false, none, List, [], ◌∷◌, ℤ, pos, ◌≡◌, refl}
use fabrica_net.RingPool.{Memory, err, invalid_capacity, new_ring_buffer_pool}
use fabrica_net.MultiPool.{new_multi_size_ring_pool, build}
use fabrica_net.Frame.Init.{PoolVariable}

abbrev no_memory : Memory
no_memory = record { next = 0; bytes = λ a. [] }

abbrev three : List (ℤ × ℕ)
three = (pos 64, 3) ∷ []

abbrev untouched : PoolVariable
untouched = record { done = false; pool = none }

rejected : new_multi_size_ring_pool three no_memory ≡ err invalid_capacity
unfolding new_multi_size_ring_pool build new_ring_buffer_pool
rejected = refl
