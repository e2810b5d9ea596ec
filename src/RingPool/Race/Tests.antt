-- ===== src/RingPool/Race/Tests.antt =====
-- internal/ringpool/pool.go: the theorems on interleavings at a ring of two slots.
use fabrica_net.Base.{ℕ, get_or, ◌≡◌, ◌≢◌, refl, [], arith}
use fabrica_net.RingPool.{Memory, empty_ring}
use fabrica_net.RingPool.Race.{
  start, owns, load_head, load_tail, win_head, lose_head, win_slot, System, pick, Reach, here, next,
}
use fabrica_net.RingPool.Race.Exclusion.{owner_unique}

abbrev no_memory : Memory
no_memory = record { next = 0; bytes = λ a. [] }

abbrev two_slots : System
two_slots = record { ring = empty_ring 8 2 no_memory; pc = λ a. start }

-- Agents 0 and 1 read the same counters; agent 1 wins the head, agent 0 loses it and starts again.
race_run : (t : System) × Reach two_slots t × (t.pc 1 ≡ owns 0)
race_run = (
  _,
  next
      (next
        (next
          (next (next (next (next here (pick 0 load_head)) (pick 1 load_head)) (pick 0 load_tail))
            (pick 1 load_tail))
          (pick 1 (win_head (omega arith) refl)))
        (pick 0 (lose_head (omega arith) (omega arith))))
      (pick 1 (win_slot refl)),
  refl,
)

owner_unique_example : (get_or race_run.0.ring.slot_states 0 1 ≢ 0) × (◌≡◌ {A = ℕ} 1 1)
owner_unique_example =
    owner_unique {s = two_slots} {t = race_run.0} (λ a i e. ground arith) race_run.1 1 1 0
      race_run.2 race_run.2
