-- ===== src/RingPool/Window.antt =====
-- internal/ringpool/pool.go, the loop of `Alloc`: how `head` and `tail` enclose the slots in use.
use fabrica_net.Base.{
  ℕ, zero, suc, ◌+◌, ◌-◌, ◌%◌, ◌^◌, ◌≤◌, ◌<◌, bit_and, bit_and_mask, ◌==◌, if◌then◌else◌, none,
  some, List, [], ◌∷◌, get_or, set, length, ◌≡◌, ◌≢◌, ◌⊎◌, inl, inr, Bool-cases, refl, arith,
  length-set, ap, subst,
}
use native.Mathlib.Nat.{mod-lt}
use fabrica_net.RingPool.{Ring, word, claim, sub64}

-- How many slots are allocated.
abbrev pub busy : List ℕ → ℕ
busy [] = 0
busy (x ∷ xs) = (if x == 0 then 0 else 1) + busy xs

pub busy-take : (xs : List ℕ) (i : ℕ) → get_or xs i 1 ≡ 0 → busy (set xs i 1) ≡ busy xs + 1
busy-take [] i h = absurd (omega arith)
busy-take (x ∷ xs) zero h = ground arith
busy-take (x ∷ xs) (suc i) h = omega (arith, busy-take xs i h)

pub busy-give :
    (xs : List ℕ) (i : ℕ) → i < length xs → get_or xs i 1 ≢ 0 → busy (set xs i 0) + 1 ≡ busy xs
busy-give [] i lt h = absurd (omega arith)
busy-give (x ∷ xs) zero lt h = ground arith
busy-give (x ∷ xs) (suc i) lt h = omega (arith, busy-give xs i (omega arith) h)

pub get_or-lt : (xs : List ℕ) (i : ℕ) → get_or xs i 1 ≡ 0 → i < length xs
get_or-lt [] i h = absurd (omega arith)
get_or-lt (x ∷ xs) zero h = omega arith
get_or-lt (x ∷ xs) (suc i) h = omega (arith, get_or-lt xs i h)

-- What the ring needs of its size: it is a power of two, and `mask` cuts out an index.
pub record IsPower (mask capacity : ℕ) : Type 0 where
  pub exponent : ℕ
  pub power : capacity ≡ 2 ^ exponent
  pub small : capacity ≤ 2 ^ 63
  pub positive : 0 < capacity
  pub masked : mask ≡ capacity - 1

-- `used` positions lie between `tail` and `head`, and among them are the allocated slots.
pub record Window (mask capacity head tail : ℕ) (states : List ℕ) (used : ℕ) : Type 0 where
  pub power : IsPower mask capacity
  pub tail_in : tail < word
  pub head_at : head ≡ (tail + used) % word
  pub fits : used ≤ capacity
  pub sized : length states ≡ capacity
  pub covered : busy states ≤ used

abbrev pub IsWindow : Ring → ℕ → Type 0
IsWindow r = Window r.mask r.capacity r.head r.tail r.slot_states

mask-lt : (a mask capacity : ℕ) → IsPower mask capacity → bit_and a mask < capacity
mask-lt a mask capacity p =
    let e : mask ≡ 2 ^ p.exponent - 1 = omega (arith, p.power, p.masked) in
    let in_range : a % 2 ^ p.exponent < 2 ^ p.exponent = mod-lt a (omega (arith, p.positive)) in
    omega (arith, ap (bit_and a) e, bit_and_mask p.exponent a, p.power)

-- The index of any position lies in the ring.
pub index-lt : (r : Ring) → IsPower r.mask r.capacity → bit_and r.head r.mask < r.capacity
index-lt r p = mask-lt r.head r.mask r.capacity p

abbrev pub taken : Ring → ℕ → ℕ → Ring
taken r head i = record r { head = head; slot_states = set r.slot_states i 1 }

-- The loop took slot `i`, which was free; it may have skipped allocated slots before.
pub record Took (fuel : ℕ) (r : Ring) (used : ℕ) : Type 0 where
  pub i : ℕ
  pub head : ℕ
  pub used' : ℕ
  pub result : claim fuel r ≡ some (some i, taken r head i)
  pub was_free : get_or r.slot_states i 1 ≡ 0
  pub grows : used < used'
  pub window : IsWindow (taken r head i) used'

-- The loop skipped allocated slots until the window was full.
pub record Filled (fuel : ℕ) (r : Ring) : Type 0 where
  pub head : ℕ
  pub result : claim fuel r ≡ some (none, record r { head = head })
  pub window : IsWindow (record r { head = head }) r.capacity

-- One more position in the window, with a slot taken or skipped.
IsWindow-take :
    (r : Ring) (used : ℕ)
    → IsWindow r used
    → used < r.capacity
    → get_or r.slot_states (bit_and r.head r.mask) 1 ≡ 0
    → IsWindow (taken r ((r.head + 1) % word) (bit_and r.head r.mask)) (used + 1)
IsWindow-take r used w room free = record {
  power = w.power;
  tail_in = w.tail_in;
  head_at = omega (arith, w.head_at);
  fits = omega arith;
  sized = omega (arith, length-set r.slot_states (bit_and r.head r.mask) 1, w.sized);
  covered = omega (arith, busy-take r.slot_states (bit_and r.head r.mask) free, w.covered);
}

IsWindow-skip :
    (r : Ring) (used : ℕ)
    → IsWindow r used
    → used < r.capacity
    → IsWindow (record r { head = (r.head + 1) % word }) (used + 1)
IsWindow-skip r used w room = record {
  power = w.power;
  tail_in = w.tail_in;
  head_at = omega (arith, w.head_at);
  fits = omega arith;
  sized = w.sized;
  covered = omega (arith, w.covered);
}

-- The source's test for a full ring.
is_full :
    (r : Ring) (used : ℕ)
    → IsWindow r used
    → r.head ≡ (r.tail + r.capacity) % word
    → used ≡ r.capacity
is_full r used w e = omega (arith, w.head_at, w.power.small)

has_room :
    (r : Ring) (used : ℕ)
    → IsWindow r used
    → r.head ≢ (r.tail + r.capacity) % word
    → used < r.capacity
has_room r used w e = omega (arith, w.head_at, w.power.small)

-- From a ring whose `head` is `used` positions ahead of its `tail`, of which no more slots are allocated,
-- more rounds of the loop of `Alloc` than the positions that are left are enough: it ends with a slot
-- that was free and is now taken, or with the window full. Either way the ring is such a ring again.
pub claim-total :
    (fuel : ℕ) (r : Ring) (used : ℕ)
    → IsWindow r used
    → r.capacity - used < fuel
    → Took fuel r used ⊎ Filled fuel r
unfolding claim
claim-total zero r used w h = absurd (omega arith)
claim-total (suc fuel) r used w h = elim (Bool-cases (r.head == (r.tail + r.capacity) % word)) [
  | inl full ↦ inr (record {
    head = r.head;
    result = rw full;
    window = subst (IsWindow r) (is_full r used w (ground arith)) w;
  })
  | inr room ↦
      let lt : used < r.capacity = has_room r used w (ground arith) in
      elim (Bool-cases (get_or r.slot_states (bit_and r.head r.mask) 1 == 0)) [
        | inl free ↦ inl (record {
          i = bit_and r.head r.mask;
          head = (r.head + 1) % word;
          used' = used + 1;
          result = rw (room, free) refl;
          was_free = ground arith;
          grows = omega arith;
          window = IsWindow-take r used w lt (ground arith);
        })
        | inr taken ↦
            let next : Ring = record r { head = (r.head + 1) % word } in
            elim (claim-total fuel next (used + 1) (IsWindow-skip r used w lt) (omega arith)) [
              | inl t ↦ inl (record {
                i = t.i;
                head = t.head;
                used' = t.used';
                result = rw (room, taken) t.result;
                was_free = t.was_free;
                grows = omega (arith, t.grows);
                window = t.window;
              })
              | inr f ↦
                  inr (record {
                    head = f.head;
                    result = rw (room, taken) f.result;
                    window = f.window;
                  })
            ]
      ]
]

pub used_of : (r : Ring) {used : ℕ} → IsWindow r used → sub64 r.head r.tail ≡ used
used_of r w = omega (arith, w.tail_in, w.head_at, w.fits, w.power.small)

-- The positions between `tail` and `head` that no allocated slot accounts for.
abbrev pub leaked : Ring → ℕ
leaked r = sub64 r.head r.tail - busy r.slot_states

-- A later ring of the same pool, with at least the same leak.
pub record Keeps (r r' : Ring) : Type 0 where
  pub leak : leaked r ≤ leaked r'
  pub same_capacity : r'.capacity ≡ r.capacity

pub Keeps-trans : {r s t : Ring} → Keeps r s → Keeps s t → Keeps r t
Keeps-trans k l = record {
  leak = omega (arith, k.leak, l.leak);
  same_capacity = omega (arith, k.same_capacity, l.same_capacity);
}

-- The leak in terms of the two windows.
pub Keeps-of :
    (r r' : Ring) {used used' : ℕ}
    → IsWindow r used
    → IsWindow r' used'
    → used + busy r'.slot_states ≤ used' + busy r.slot_states
    → r'.capacity ≡ r.capacity
    → Keeps r r'
Keeps-of r r' w w' h e = record {
  leak = omega (arith, used_of r w, used_of r' w', w.covered, w'.covered);
  same_capacity = e;
}

pub Took-Keeps :
    {fuel used : ℕ} (r : Ring) (t : Took fuel r used)
    → IsWindow r used
    → Keeps r (taken r t.head t.i)
Took-Keeps r t w =
    Keeps-of r (taken r t.head t.i) w t.window
      (omega (arith, busy-take r.slot_states t.i t.was_free, t.grows)) refl

pub Filled-Keeps :
    {fuel used : ℕ} (r : Ring) (f : Filled fuel r)
    → IsWindow r used
    → Keeps r (record r { head = f.head })
Filled-Keeps r f w = Keeps-of r (record r { head = f.head }) w f.window (omega (arith, w.fits)) refl

pub Keeps-give :
    {used used' : ℕ} (r : Ring) (i : ℕ)
    → IsWindow r used
    → IsWindow (record r { slot_states = set r.slot_states i 0; tail = (r.tail + 1) % word }) used'
    → busy (set r.slot_states i 0) + 1 ≡ busy r.slot_states
    → Keeps r (record r { slot_states = set r.slot_states i 0; tail = (r.tail + 1) % word })
Keeps-give {used} {used'} r i w w' e =
    let wrapped : (r.tail + used) % word ≡ ((r.tail + 1) % word + used') % word =
      omega (arith, w.head_at, w'.head_at) in
    Keeps-of r _ w w' (omega (arith, wrapped, w.tail_in, w.covered, w.fits, w'.fits, w.power.small))
      refl
