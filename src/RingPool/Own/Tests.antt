-- ===== src/RingPool/Own/Tests.antt =====
-- internal/ringpool/pool.go on small pools, and the theorems at those inputs.
use fabrica_net.Base.{
  ℕ, ◌+◌, ◌≤◌, Option, none, some, List, [], ◌∷◌, ◌≡◌, ◌⊎◌, refl, arith, pos, negsuc, take,
}
use fabrica_net.RingPool.{
  Slice, Memory, Ring, empty_ring, fill_memory, fill_buffers, fill_addrs, new_ring_buffer_pool, ok,
  err, invalid_size, invalid_capacity, alloc, free, claim, fallback, hand_out, ring_index,
  available,
}
use fabrica_net.RingPool.Window.{busy, leaked, IsWindow, Took, Filled, claim-total}
use fabrica_net.RingPool.Own.{
  Client, Op, allocs, frees, writes, IsOwned, slices_at, idle, run, step,
}
use fabrica_net.RingPool.Own.Run.{run-Owns}
use fabrica_net.RingPool.New.{NewPool, new_ring_buffer_pool-NewPool}
use fabrica_net.RingPool.Safety.{client, run_exclusive, alloc_after_run, leaked-run}

abbrev blank : Memory
blank = record { next = 0; bytes = λ _. [] }

-- Two buffers of four bytes.
abbrev two : Client
two = client (empty_ring 4 2 blank) (fill_memory 2 4 blank)

refused :
    (new_ring_buffer_pool (negsuc 0) 2 blank ≡ err invalid_size)
    × (new_ring_buffer_pool (pos 4) 255 blank ≡ err invalid_capacity)
    × (new_ring_buffer_pool (pos 4) 0 blank ≡ err invalid_capacity)
unfolding new_ring_buffer_pool
refused = (refl, refl, refl)

two_made : new_ring_buffer_pool (pos 4) 2 blank ≡ ok (two.ring, two.memory)
unfolding new_ring_buffer_pool
two_made = refl

new_ring_buffer_pool-NewPool_example :
    NewPool (pos 4) 2 blank (new_ring_buffer_pool (pos 4) 2 blank)
new_ring_buffer_pool-NewPool_example = new_ring_buffer_pool-NewPool (pos 4) 2 blank (omega arith)

-- The loop at the empty ring needs no more than three rounds.
two-IsWindow : IsWindow two.ring 0
two-IsWindow = record {
  power = record {
    exponent = 1;
    power = omega arith;
    small = omega arith;
    positive = omega arith;
    masked = omega arith;
  };
  tail_in = omega arith;
  head_at = omega arith;
  fits = omega arith;
  sized = omega arith;
  covered = omega arith;
}

claim-total_example : Took 3 two.ring 0 ⊎ Filled 3 two.ring
claim-total_example = claim-total 3 two.ring 0 two-IsWindow (omega arith)

two-IsOwned : IsOwned two
unfolding new_ring_buffer_pool
two-IsOwned = (new_ring_buffer_pool-NewPool (pos 4) 2 blank (omega arith)).5

-- Allocate both buffers, free the second, allocate again (the first is skipped, and the fallback
-- serves), then free all.
abbrev out_of_order : List Op
out_of_order =
    allocs (pos 3)
    ∷ allocs (pos 3)
    ∷ writes 0 (7 ∷ 7 ∷ [])
    ∷ frees 0
    ∷ allocs (pos 3)
    ∷ frees 0
    ∷ frees 0
    ∷ []

abbrev last_of : Option Client → Client
last_of none = two
last_of (some c) = c

abbrev drained : Client
drained = last_of (run two out_of_order)

-- Nobody holds a buffer and every slot is free, yet one of two counts as taken.
drained_state :
    (drained.held ≡ [])
    × (drained.ring.slot_states ≡ 0 ∷ 0 ∷ [])
    × (drained.ring.head ≡ 3)
    × (drained.ring.tail ≡ 2)
    × (drained.ring.fallback_count ≡ 1)
    × (available drained.ring ≡ 1)
    × (leaked drained.ring ≡ 1)
unfolding run step alloc free hand_out claim fallback ring_index available fill_buffers fill_addrs
    fill_memory
drained_state = (refl, refl, refl, refl, refl, refl, refl)

drained-IsOwned : IsOwned drained
drained-IsOwned = let s = run-Owns two out_of_order two-IsOwned in rw (s.returned) s.owned

run_exclusive_example :
    (c : Client) × (run two out_of_order ≡ some c)
    × ((a : ℕ) → slices_at c.held a + idle c.ring a ≤ 1)
run_exclusive_example = run_exclusive (pos 4) 2 blank (omega arith) two_made out_of_order

alloc_after_run_example :
    (b : Slice) × (r : Ring) × (m : Memory) × (alloc drained.ring drained.memory (pos 2)
      ≡ some (b, r, m))
    × (b.len ≡ 2)
    × (take 2 (m.bytes b.addr) ≡ 0 ∷ 0 ∷ [])
    × (slices_at drained.held b.addr ≡ 0)
unfolding run step alloc free hand_out claim fallback ring_index fill_buffers fill_addrs fill_memory
alloc_after_run_example =
    alloc_after_run (pos 4) 2 blank (omega arith) two_made out_of_order (pos 2) refl

leaked-run_example :
    (c : Client) × (run drained (allocs (pos 1) ∷ allocs (pos 1) ∷ []) ≡ some c)
    × (available c.ring + busy c.ring.slot_states + 1 ≤ 2)
unfolding run step alloc free hand_out claim fallback ring_index fill_buffers fill_addrs fill_memory
leaked-run_example = leaked-run drained (allocs (pos 1) ∷ allocs (pos 1) ∷ []) drained-IsOwned
