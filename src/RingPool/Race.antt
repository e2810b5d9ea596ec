-- ===== src/RingPool/Race.antt =====
-- internal/ringpool/pool.go, `Alloc` and `Free` of ring buffers as goroutines interleave: one atomic
-- access at a time, in any order. An agent is one buffer's life, from the call of `Alloc` to the end
-- of `Free`; a goroutine that holds several buffers is several agents.
pub mod Exclusion
pub mod Lone
mod Tests
use fabrica_net.Base.{ℕ, ◌+◌, ◌%◌, ◌<◌, get_or, set, update, bit_and, ◌≡◌, ◌≢◌}
use fabrica_net.RingPool.{Ring, word}

-- Where an agent stands, with its local variables.
pub data Pc : Type 0 where
  start : Pc  -- the head of the loop
  loaded_head : (head : ℕ) → Pc
  loaded : (head tail : ℕ) → Pc
  claimed : (index : ℕ) → Pc  -- `head` is advanced, before the compare-and-swap of the slot
  full : Pc  -- the fallback pool serves
  owns : (index : ℕ) → Pc  -- from the return of `Alloc` to the store in `Free`
  freeing : Pc  -- before `tail.Add(1)`
  done : Pc

abbrev index_of : Ring → ℕ → ℕ
index_of r head = bit_and head r.mask

-- One atomic access of one agent.
pub data Move (r : Ring) : Pc → Ring → Pc → Type 0 where
  load_head : Move r start r (loaded_head r.head)
  load_tail : {h : ℕ} → Move r (loaded_head h) r (loaded h r.tail)
  ring_full : {h t : ℕ} → h ≡ (t + r.capacity) % word → Move r (loaded h t) r full
  win_head :
      {h t : ℕ}
      → h ≢ (t + r.capacity) % word
      → r.head ≡ h
      → Move r (loaded h t) (record r { head = (h + 1) % word }) (claimed (index_of r h))
  lose_head : {h t : ℕ} → h ≢ (t + r.capacity) % word → r.head ≢ h → Move r (loaded h t) r start
  win_slot :
      {i : ℕ}
      → get_or r.slot_states i 1 ≡ 0
      → Move r (claimed i) (record r { slot_states = set r.slot_states i 1 }) (owns i)
  lose_slot : {i : ℕ} → get_or r.slot_states i 1 ≢ 0 → Move r (claimed i) r start
  store_free : {i : ℕ} → Move r (owns i) (record r { slot_states = set r.slot_states i 0 }) freeing
  add_tail : Move r freeing (record r { tail = (r.tail + 1) % word }) done

pub record System : Type 0 where
  pub ring : Ring
  pub pc : ℕ → Pc

pub data Step (s : System) : System → Type 0 where
  pick :
      (a : ℕ) {r : Ring} {p : Pc}
      → Move s.ring (s.pc a) r p
      → Step s (record { ring = r; pc = update s.pc a p })

pub data Reach (s : System) : System → Type 0 where
  here : Reach s s
  next : {t u : System} → Reach s t → Step t u → Reach s u
