-- ===== src/RingPool/Race/Exclusion.antt =====
-- internal/ringpool/pool.go: under every interleaving a ring buffer has one owner at most.
use fabrica_net.Base.{
  ℕ, get_or, get_or-set, set, update, length, length-set, ap, ◌≡◌, ◌≢◌, refl, arith, ◌<◌,
}
use fabrica_net.RingPool.{Ring}
use fabrica_net.RingPool.Window.{get_or-lt}
use fabrica_net.RingPool.Race.{
  Pc, owns, freeing, Move, load_head, load_tail, ring_full, win_head, lose_head, win_slot,
  lose_slot, store_free, add_tail, System, pick, Reach, here, next,
}

-- An owned slot is marked, and by one agent.
pub record Inv (r : Ring) (pc : ℕ → Pc) : Type 0 where
  pub marked : (a i : ℕ) → pc a ≡ owns i → get_or r.slot_states i 1 ≢ 0
  pub in_range : (a i : ℕ) → pc a ≡ owns i → i < length r.slot_states
  pub single : (a b i : ℕ) → pc a ≡ owns i → pc b ≡ owns i → a ≡ b

-- A move to a place that owns nothing, over the same slots.
move_on :
    {r r' : Ring} {pc : ℕ → Pc} (a : ℕ) (p : Pc)
    → r'.slot_states ≡ r.slot_states
    → ((i : ℕ) → p ≢ owns i)
    → Inv r pc
    → Inv r' (update pc a p)
move_on a p same none_owned v = record {
  marked = λ b i e. ground (arith, v.marked b i, none_owned i);
  in_range = λ b i e. ground (arith, v.in_range b i, none_owned i, ap length same);
  single = λ b c i e f. ground (arith, v.single b c i, none_owned i);
}

take_slot :
    {r : Ring} {pc : ℕ → Pc} (a i : ℕ)
    → get_or r.slot_states i 1 ≡ 0
    → Inv r pc
    → Inv (record r { slot_states = set r.slot_states i 1 }) (update pc a (owns i))
take_slot {r} a i free v = record {
  marked = λ b j e.
      ground
        (arith, v.marked b j, get_or-set r.slot_states i j 1 1 (get_or-lt r.slot_states i free));
  in_range = λ b j e.
      ground (arith, v.in_range b j, get_or-lt r.slot_states i free, length-set r.slot_states i 1);
  single = λ b c j e f. ground (arith, v.single b c j, v.marked b j, v.marked c j);
}

give_slot :
    {r : Ring} {pc : ℕ → Pc} (a i : ℕ)
    → pc a ≡ owns i
    → Inv r pc
    → Inv (record r { slot_states = set r.slot_states i 0 }) (update pc a freeing)
give_slot {r} a i own v = record {
  marked = λ b j e. ground (
    arith,
    v.marked b j,
    v.single a b i own,
    get_or-set r.slot_states i j 0 1 (v.in_range a i own),
  );
  in_range = λ b j e. ground (arith, v.in_range b j, length-set r.slot_states i 0);
  single = λ b c j e f. ground (arith, v.single b c j);
}

-- Each move, from the agent's place.
Move-Inv :
    {r r' : Ring} {p q : Pc} (pc : ℕ → Pc) (a : ℕ)
    → Move r p r' q
    → pc a ≡ p
    → Inv r pc
    → Inv r' (update pc a q)
Move-Inv pc a load_head e v = move_on a _ refl (λ i h. cc) v
Move-Inv pc a load_tail e v = move_on a _ refl (λ i h. cc) v
Move-Inv pc a (ring_full h) e v = move_on a _ refl (λ i h. cc) v
Move-Inv pc a (win_head n h) e v = move_on a _ refl (λ i h. cc) v
Move-Inv pc a (lose_head n h) e v = move_on a _ refl (λ i h. cc) v
Move-Inv pc a (win_slot {i} free) e v = take_slot a i free v
Move-Inv pc a (lose_slot h) e v = move_on a _ refl (λ i h. cc) v
Move-Inv pc a (store_free {i}) e v = give_slot a i e v
Move-Inv pc a add_tail e v = move_on a _ refl (λ i h. cc) v

Reach-Inv : {s t : System} → Inv s.ring s.pc → Reach s t → Inv t.ring t.pc
Reach-Inv v here = v
Reach-Inv v (next {t} r (pick a m)) = Move-Inv t.pc a m refl (Reach-Inv v r)

-- From any state in which no agent owns a slot, whatever the counters and slots hold, and under any
-- interleaving of any number of agents: a slot that an agent owns is marked allocated, and no other
-- agent owns it.
pub owner_unique :
    {s t : System}
    → ((a i : ℕ) → s.pc a ≢ owns i)
    → Reach s t
    → (a b i : ℕ) → t.pc a ≡ owns i
    → t.pc b ≡ owns i
    → (get_or t.ring.slot_states i 1 ≢ 0) × (a ≡ b)
owner_unique none_owned r a b i e f =
    let v =
      Reach-Inv
        (record {
          marked = λ c j h. absurd (none_owned c j h);
          in_range = λ c j h. absurd (none_owned c j h);
          single = λ c d j h k. absurd (none_owned c j h);
        })
        r in
    (v.marked a i e, v.single a b i e f)
