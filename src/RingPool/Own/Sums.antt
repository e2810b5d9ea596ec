-- ===== src/RingPool/Own/Sums.antt =====
-- Bookkeeping of `RingPool.Own`: how the counts and lists there change with one step.
use fabrica_net.Base.{
  ℕ, zero, suc, ◌+◌, ◌≤◌, ◌<◌, ◌==◌, if◌then◌else◌, some, List, [], ◌∷◌, get_or, set, get_or-set,
  replicate, lookup, length, All, remove_at, get_elem?, ◌≡◌, ◌≢◌, refl, ap, arith, Option-cases,
  inl, inr, subst,
}
use fabrica_net.RingPool.{Slice, clear_first}
use fabrica_net.RingPool.Own.{free_unit, slices_at, copy_to}

-- Taking a free slot clears the unit of its address and raises none.
pub free_unit-take :
    (addrs : List (ℕ × ℕ)) (states : List ℕ) (i a : ℕ)
    → i < length states
    → free_unit addrs (set states i 1) a ≤ free_unit addrs states a
free_unit-take addrs states i a h = elim (Option-cases (lookup a addrs)) [
  | inl e ↦ rw (e, free_unit) (omega arith)
  | inr (j, e) ↦ rw (e, free_unit) (ground (arith, get_or-set states i j 1 1 h))
]

pub free_unit-taken :
    (addrs : List (ℕ × ℕ)) (states : List ℕ) (i a : ℕ)
    → i < length states
    → lookup a addrs ≡ some i
    → free_unit addrs (set states i 1) a ≡ 0
free_unit-taken addrs states i a h e =
    rw (e, free_unit) (ground (arith, get_or-set states i i 1 1 h))

pub free_unit_free :
    (addrs : List (ℕ × ℕ)) (states : List ℕ) (i a : ℕ)
    → lookup a addrs ≡ some i
    → get_or states i 1 ≡ 0
    → free_unit addrs states a ≡ 1
free_unit_free addrs states i a e f = ground arith

pub free_unit_busy :
    (addrs : List (ℕ × ℕ)) (states : List ℕ) (i a : ℕ)
    → lookup a addrs ≡ some i
    → free_unit addrs states a ≡ 0
    → get_or states i 1 ≢ 0
free_unit_busy addrs states i a e u f = ground (arith, free_unit_free addrs states i a e f)

-- Giving slot `i` back raises the unit of the one address that has this index.
pub free_unit-give :
    (addrs : List (ℕ × ℕ)) (states : List ℕ) (i a b : ℕ)
    → i < length states
    → lookup b addrs ≡ some i
    → (lookup a addrs ≡ some i → a ≡ b)
    → free_unit addrs (set states i 0) a ≤ free_unit addrs states a + (if b == a then 1 else 0)
free_unit-give addrs states i a b h e only = elim (Option-cases (lookup a addrs)) [
  | inl n ↦ rw (n, free_unit) (omega arith)
  | inr (j, n) ↦ rw (n, free_unit) (ground (arith, get_or-set states i j 0 1 h))
]

-- Removing an entry takes its address off the count.
pub slices_at-remove_at :
    (bs : List Slice) (k a : ℕ) {b : Slice}
    → get_elem? bs k ≡ some b
    → slices_at (remove_at bs k) a + (if b.addr == a then 1 else 0) ≡ slices_at bs a
slices_at-remove_at [] k a e = cc
slices_at-remove_at (x ∷ bs) zero a e = ground arith
slices_at-remove_at (x ∷ bs) (suc k) a e = omega (arith, slices_at-remove_at bs k a e)

pub All-remove_at {κ} :
    (P : Slice → Type κ) (bs : List Slice) (k : ℕ) → All P bs → All P (remove_at bs k)
All-remove_at P [] k h = h
All-remove_at P (x ∷ bs) zero h = h.1
All-remove_at P (x ∷ bs) (suc k) h = (h.0, All-remove_at P bs k h.1)

pub All-get_elem? {κ} :
    (P : Slice → Type κ) (bs : List Slice) (k : ℕ) {b : Slice}
    → get_elem? bs k ≡ some b
    → All P bs
    → P b
All-get_elem? P [] k e h = cc
All-get_elem? P (x ∷ bs) zero {b} e h = let q : x ≡ b = cc in subst P q h.0
All-get_elem? P (x ∷ bs) (suc k) e h = All-get_elem? P bs k e h.1

-- A cleared array is all zeros.
pub clear_first-zeros : (n : ℕ) (xs : List ℕ) → length xs ≡ n → clear_first n xs ≡ replicate n 0
clear_first-zeros zero [] h = refl
clear_first-zeros zero (x ∷ xs) h = absurd (omega arith)
clear_first-zeros (suc n) [] h = absurd (omega arith)
clear_first-zeros (suc n) (x ∷ xs) h = ap (◌∷◌ 0) (clear_first-zeros n xs (omega arith))

pub length-copy_to : (src xs : List ℕ) → length (copy_to src xs) ≡ length xs
length-copy_to src [] = refl
length-copy_to [] (x ∷ xs) = refl
length-copy_to (b ∷ src) (x ∷ xs) = ap suc (length-copy_to src xs)

-- A predicate of entries whose addresses are not `a` survives a change at `a`.
pub All-elsewhere {κ ι} :
    (P : Slice → Type κ) (Q : Slice → Type ι) (a : ℕ) (bs : List Slice)
    → slices_at bs a ≡ 0
    → ((b : Slice) → b.addr ≢ a → P b → Q b)
    → All P bs
    → All Q bs
All-elsewhere P Q a [] n f h = tt
All-elsewhere P Q a (b ∷ bs) n f h =
    (f b (λ e. absurd (ground arith)) h.0, All-elsewhere P Q a bs (ground arith) f h.1)
