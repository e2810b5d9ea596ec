-- ===== src/Workers/Distribute.antt =====
-- internal/workermanager.go: how `GetByUIDs` distributes worker ids over the buckets.
use fabrica_net.Base.{
  ℕ, zero, suc, ◌^◌, ◌<◌, ◌≡◌, ◌≢◌, refl, sym, ap, ◌∙◌, subst, fun_ext, inl, inr, Bool, true, false,
  ◌||◌, ◌&&◌, some, List, [], ◌∷◌, ◌++◌, ◌==◌, Bool-cases, arith, All, length, get_or, get_or-set,
  length-set, replicate, ==_iff, All-append,
}
use fabrica_net.Workers.{get_bucket_key, append_at, distribute}
use fabrica_net.Workers.Shard.{get_bucket_key-lt}
use fabrica_net.Workers.Collect.{any, any-append, is}

or-false : (a : Bool) → a ≡ a || false
or-false true = refl
or-false false = refl

or-regroup : (a b r : Bool) → (a || (b || false)) || r ≡ a || (b || r)
or-regroup true b r = refl
or-regroup false true r = refl
or-regroup false false r = refl

module _ (n : ℕ) (h : 0 < n) (s : n < 2 ^ 64) where
  pub length-distribute :
      (wids : List ℕ) (keys : List (List ℕ)) → length (distribute n wids keys) ≡ length keys
  unfolding distribute
  length-distribute [] keys = refl
  length-distribute (x ∷ wids) keys =
      length-distribute wids (append_at keys (get_bucket_key x n) x) ∙ length-set keys _ _

  pub distribute-All :
      (P : ℕ → ℕ → Type 0) (wids : List ℕ) (keys : List (List ℕ))
      → length keys ≡ n
      → All (λ x. P (get_bucket_key x n) x) wids
      → ((i : ℕ) → All (P i) (get_or keys i []))
      → (i : ℕ) → All (P i) (get_or (distribute n wids keys) i [])
  unfolding distribute
  distribute-All P [] keys l a k i = k i
  distribute-All P (x ∷ wids) keys l a k i =
      let j = get_bucket_key x n in
      let small : j < length keys = omega (arith, get_bucket_key-lt x n h s) in
      distribute-All P wids (append_at keys j x) (length-set keys _ _ ∙ l) a.1
        (λ q. subst (All (P q)) (sym (get_or-set keys j q _ [] small)) (elim (Bool-cases (j == q)) [
          | inl y ↦
              let e : j ≡ q = ground arith in
              rw y (
                subst (λ z. All (P z) (get_or keys j [] ++ x ∷ [])) e
                  (All-append (P j) (get_or keys j []) (x ∷ []) (k j) (a.0, tt)))
          | inr d ↦ rw d (k q)
        ]))
        i

  -- An id that satisfies `p` is in list `i` after the distribution if it was before, or if it is one
  -- of bucket `i`.
  pub any-distribute :
      (p : ℕ → Bool) (wids : List ℕ) (keys : List (List ℕ)) (i : ℕ)
      → length keys ≡ n
      → any p (get_or (distribute n wids keys) i [])
        ≡ any p (get_or keys i []) || any (λ x. (get_bucket_key x n == i) && p x) wids
  unfolding distribute
  any-distribute p [] keys i l = or-false (any p (get_or keys i []))
  any-distribute p (x ∷ wids) keys i l =
      let j = get_bucket_key x n in
      let small : j < length keys = omega (arith, get_bucket_key-lt x n h s) in
      any-distribute p wids (append_at keys j x) i (length-set keys _ _ ∙ l)
      ∙ ap (λ z. any p z || any (λ x. (get_bucket_key x n == i) && p x) wids)
          (get_or-set keys j i _ [] small)
      ∙ elim (Bool-cases (j == i)) [
        | inl y ↦
            let e : j ≡ i = ground arith in
            rw y (
              ap (λ b. b || any (λ x. (get_bucket_key x n == i) && p x) wids)
                (any-append p (get_or keys j []) (x ∷ []))
              ∙ or-regroup (any p (get_or keys j [])) (p x) _
              ∙ ap
                  (λ z.
                    any p (get_or keys z [])
                    || (p x || any (λ x. (get_bucket_key x n == i) && p x) wids))
                  e)
        | inr d ↦ rw d refl
      ]

pub get_or-empty : (n i : ℕ) → get_or {A = List ℕ} (replicate n []) i [] ≡ []
get_or-empty zero i = refl
get_or-empty (suc n) zero = refl
get_or-empty (suc n) (suc i) = get_or-empty n i

pub any-never : (xs : List ℕ) (p : ℕ → Bool) → ((x : ℕ) → p x ≡ false) → any p xs ≡ false
any-never [] p e = refl
any-never (x ∷ xs) p e = rw (e x) (any-never xs p e)

pub any-congr : (xs : List ℕ) (p q : ℕ → Bool) → ((x : ℕ) → p x ≡ q x) → any p xs ≡ any q xs
any-congr xs p q e = ap (λ f. any f xs) (fun_ext e)

-- Of the id `y`, only the bucket of its key tells.
pub and-is-here :
    (n y i : ℕ)
    → get_bucket_key y n ≡ i
    → (x : ℕ) → (get_bucket_key x n == i) && is (some y) x ≡ is (some y) x
and-is-here n y i k x = elim (Bool-cases (x == y)) [
  | inl e ↦
      let q : x ≡ y = ground arith in
      let k' : (get_bucket_key x n == i) ≡ true =
        (==_iff _ _).1 (ap (λ z. get_bucket_key z n) q ∙ k) in
      rw (k', e) refl
  | inr e ↦ elim (Bool-cases (get_bucket_key x n == i)) [
    | inl a ↦ rw (a, e) refl
    | inr a ↦ rw (a, e) refl
  ]
]

pub and-is-there :
    (n y i : ℕ)
    → get_bucket_key y n ≢ i
    → (x : ℕ) → (get_bucket_key x n == i) && is (some y) x ≡ false
and-is-there n y i k x = elim (Bool-cases (x == y)) [
  | inl e ↦
      let q : x ≡ y = ground arith in
      elim (Bool-cases (get_bucket_key x n == i)) [
        | inl a ↦ absurd (k (sym (ap (λ z. get_bucket_key z n) q) ∙ (==_iff _ _).0 a))
        | inr a ↦ rw a refl
      ]
  | inr e ↦ elim (Bool-cases (get_bucket_key x n == i)) [
    | inl a ↦ rw (a, e) refl
    | inr a ↦ rw a refl
  ]
]
