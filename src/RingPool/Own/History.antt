-- ===== src/RingPool/Own/History.antt =====
-- internal/ringpool/pool.go: what holds after any history of allocations, writes and frees.
use fabrica_net.Base.{
  ℕ, zero, suc, ◌+◌, ◌%◌, ◌≤◌, ◌<◌, some, List, ◌∷◌, get_or, replicate, take, ℤ, pos, true, false,
  pos_part, leb_ℤ, ltb, ◌≡◌, refl, sym, arith, Bool-cases, List-cases, take-replicate, inl, inr,
  Option,
}
use fabrica_net.RingPool.{
  Slice, Memory, Ring, count_alloc, word, make_slice, make_memory, reslice, no_slice, alloc, claim,
  hand_out, fallback,
}
use fabrica_net.RingPool.Window.{
  Took, Filled, taken, claim-total, Keeps, Keeps-trans, Took-Keeps, Filled-Keeps,
}
use fabrica_net.RingPool.Own.{Client, IsOwned}
use fabrica_net.RingPool.Own.Preserve.{
  own_counted, own_make, own_pooled, own_take, own-Filled, zero_pooled, zero_slot, cap_pooled,
  slot_unit,
}

-- What a call of `Alloc` for `n` bytes gives: a slice of `n` zeros, in an array that nobody else has.
pub record Serves (old : Ring) (held : List Slice) (n : ℕ) (result : Option (Slice × Ring × Memory))
    : Type 0 where
  pub slice : Slice
  pub ring : Ring
  pub memory : Memory
  pub returned : result ≡ some (slice, ring, memory)
  pub len_is : slice.len ≡ n
  pub cap_is : 0 < n → n ≤ old.buffer_size → slice.cap ≡ old.buffer_size
  pub zeros : take n (memory.bytes slice.addr) ≡ replicate n 0
  pub keeps : Keeps old ring
  pub owned : IsOwned (record { ring = ring; memory = memory; held = slice ∷ held })

make_zeros :
    (m : Memory) (n : ℕ) → take n ((make_memory m n).bytes (make_slice m n).addr) ≡ replicate n 0
make_zeros m n = ground (arith, take-replicate n n (zero))

module _ (c : Client) (o : IsOwned c) (n : ℕ) where
  open c use {ring, memory, held}

  fallback-Serves : n ≤ ring.buffer_size → Serves ring held n (some (fallback ring memory n))
  unfolding fallback
  fallback-Serves le = elim (List-cases ring.fallback_pool) [
    | inl e ↦ record {
      slice = reslice (make_slice memory ring.buffer_size) n;
      ring = record ring { fallback_count = (ring.fallback_count + 1) % word };
      memory = make_memory memory ring.buffer_size;
      returned = ground arith;
      len_is = refl;
      cap_is = λ _ _. refl;
      zeros = ground (arith, take-replicate n ring.buffer_size (zero));
      keeps = record { leak = omega arith; same_capacity = refl };
      owned = own_counted _ (own_make c o ring.buffer_size n le) _ _ _;
    }
    | inr (b, rest, e) ↦ record {
      slice = reslice b n;
      ring = record ring {
        fallback_pool = rest;
        fallback_count = (ring.fallback_count + 1) % word;
      };
      memory = memory;
      returned = ground arith;
      len_is = refl;
      cap_is = λ _ _. cap_pooled c o b rest e;
      zeros = ground (arith, zero_pooled c o b rest e, take-replicate n ring.buffer_size (zero));
      keeps = record { leak = omega arith; same_capacity = refl };
      owned = own_counted _ (own_pooled c o b rest n e le) _ _ _;
    }
  ]

  take-Serves :
      {fuel : ℕ} (t : Took fuel ring o.used)
      → n ≤ ring.buffer_size
      → Serves ring held n (hand_out memory n (claim fuel ring))
  unfolding hand_out
  take-Serves t le = record {
    slice = reslice (get_or ring.buffers t.i no_slice) n;
    ring = taken ring t.head t.i;
    memory = memory;
    returned = rw (t.result);
    len_is = refl;
    cap_is = λ _ _. o.table.size_at t.i (slot_unit c o t.i t.was_free).0;
    zeros = ground (arith, zero_slot c o t.i t.was_free, take-replicate n ring.buffer_size (zero));
    keeps = Took-Keeps ring t o.window;
    owned = own_take c o t n le;
  }

Filled-Serves :
    (c : Client) (o : IsOwned c) (n : ℕ) {fuel : ℕ} (f : Filled fuel c.ring)
    → n ≤ c.ring.buffer_size
    → Serves c.ring c.held n (hand_out c.memory n (claim fuel c.ring))
unfolding hand_out
Filled-Serves c o n f le =
    let s =
      fallback-Serves (record c { ring = record c.ring { head = f.head } }) (own-Filled c o f) n
        le in
    record {
      slice = s.slice;
      ring = s.ring;
      memory = s.memory;
      returned = rw (f.result) (s.returned);
      len_is = s.len_is;
      cap_is = s.cap_is;
      zeros = s.zeros;
      keeps = Keeps-trans (Filled-Keeps c.ring f o.window) s.keeps;
      owned = s.owned;
    }

claim-Serves :
    (c : Client) (o : IsOwned c) (n : ℕ)
    → n ≤ c.ring.buffer_size
    → Serves c.ring c.held n (hand_out c.memory n (claim (suc c.ring.capacity) c.ring))
claim-Serves c o n le =
    elim (claim-total (suc c.ring.capacity) c.ring o.used o.window (omega arith)) [
      | inl t ↦ take-Serves c o n t le
      | inr f ↦ Filled-Serves c o n f le
    ]

alloc_empty :
    (c : Client) (size : ℤ)
    → IsOwned c
    → leb_ℤ size (pos 0) ≡ true
    → Serves c.ring c.held (pos_part size) (alloc c.ring c.memory size)
unfolding alloc
alloc_empty c size o t =
    let e : pos_part size ≡ 0 = ground arith in
    record {
      slice = make_slice c.memory 0;
      ring = count_alloc c.ring;
      memory = make_memory c.memory 0;
      returned = rw t;
      len_is = sym e;
      cap_is = λ h _. absurd (omega arith);
      zeros = rw e;
      keeps = record { leak = omega arith; same_capacity = refl };
      owned = own_counted _ (own_make c o 0 0 (omega arith)) _ _ _;
    }

alloc_large :
    (c : Client) (size : ℤ)
    → IsOwned c
    → leb_ℤ size (pos 0) ≡ false
    → ltb c.ring.buffer_size (pos_part size) ≡ true
    → Serves c.ring c.held (pos_part size) (alloc c.ring c.memory size)
unfolding alloc
alloc_large c size o t l = record {
  slice = make_slice c.memory (pos_part size);
  ring = count_alloc c.ring;
  memory = make_memory c.memory (pos_part size);
  returned = rw (t, l);
  len_is = refl;
  cap_is = λ h k. absurd (ground arith);
  zeros = make_zeros c.memory (pos_part size);
  keeps = record { leak = omega arith; same_capacity = refl };
  owned = own_counted _ (own_make c o (pos_part size) (pos_part size) (omega arith)) _ _ _;
}

alloc_small :
    (c : Client) (size : ℤ)
    → IsOwned c
    → leb_ℤ size (pos 0) ≡ false
    → ltb c.ring.buffer_size (pos_part size) ≡ false
    → Serves c.ring c.held (pos_part size) (alloc c.ring c.memory size)
unfolding alloc
alloc_small c size o t l =
    let s =
      claim-Serves (record c { ring = count_alloc c.ring }) (own_counted c o _ _ _) (pos_part size)
        (ground arith) in
    record {
      slice = s.slice;
      ring = s.ring;
      memory = s.memory;
      returned = rw (t, l) (s.returned);
      len_is = s.len_is;
      cap_is = s.cap_is;
      zeros = s.zeros;
      keeps = record { leak = s.keeps.leak; same_capacity = s.keeps.same_capacity };
      owned = s.owned;
    }

-- `Alloc` always returns: for a positive size that many zeros, else an empty slice.
pub alloc-Serves :
    (c : Client) (size : ℤ)
    → IsOwned c
    → Serves c.ring c.held (pos_part size) (alloc c.ring c.memory size)
alloc-Serves c size o = elim (Bool-cases (leb_ℤ size (pos 0))) [
  | inl t ↦ alloc_empty c size o t
  | inr t ↦ elim (Bool-cases (ltb c.ring.buffer_size (pos_part size))) [
    | inl l ↦ alloc_large c size o t l
    | inr l ↦ alloc_small c size o t l
  ]
]
