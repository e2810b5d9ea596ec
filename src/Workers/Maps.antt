-- ===== src/Workers/Maps.antt =====
-- internal/workermanager.go: what `Load`, `Store` and `Delete` of a `sync.Map` do to each other.
use fabrica_net.Base.{
  ℕ, zero, suc, ◌+◌, ◌-◌, ◌≤◌, ◌<◌, ◌≡◌, refl, sym, ap, ◌∙◌, ◌≢◌, ◌⊎◌, inl, inr, Bool, true, false,
  Option, none, some, List, [], ◌∷◌, ◌==◌, if◌then◌else◌, Bool-cases, some_inj, ==_iff, arith,
  length, All, ℤ, pos, negsuc,
}
use fabrica_net.Workers.{Key, int64_key, uint64_key, eq_ℤ, eq_key, load, store, delete}

pub ruleset facts = (==_iff, inl, inr)

pub eq_ℤ-self : (a : ℤ) → eq_ℤ a a ≡ true
eq_ℤ-self (pos a) = ground arith
eq_ℤ-self (negsuc a) = ground arith

pub eq_ℤ→≡ : (a b : ℤ) → eq_ℤ a b ≡ true → a ≡ b
eq_ℤ→≡ (pos a) (pos b) h = let e : a ≡ b = ground arith in ap pos e
eq_ℤ→≡ (negsuc a) (negsuc b) h = let e : a ≡ b = ground arith in ap negsuc e
eq_ℤ→≡ (pos a) (negsuc b) h = ground arith
eq_ℤ→≡ (negsuc a) (pos b) h = ground arith

pub eq_key_self : (k : Key) → eq_key k k ≡ true
eq_key_self (int64_key a) = eq_ℤ-self a
eq_key_self (uint64_key a) = ground arith

pub eq_key→≡ : (j k : Key) → eq_key j k ≡ true → j ≡ k
eq_key→≡ (int64_key a) (int64_key b) h = ap int64_key (eq_ℤ→≡ a b h)
eq_key→≡ (uint64_key a) (uint64_key b) h = let e : a ≡ b = ground arith in ap uint64_key e
eq_key→≡ (int64_key a) (uint64_key b) h = ground arith
eq_key→≡ (uint64_key a) (int64_key b) h = ground arith

pub eq_key_trans : (i j k : Key) → eq_key i j ≡ true → eq_key i k ≡ eq_key j k
eq_key_trans i j k h = ap (λ x. eq_key x k) (eq_key→≡ i j h)

pub eq_key-sym : (j k : Key) → eq_key j k ≡ eq_key k j
eq_key-sym j k = elim (Bool-cases (eq_key j k)) [
  | inl e ↦ ap (λ x. eq_key x k) (eq_key→≡ j k e) ∙ ap (eq_key k) (sym (eq_key→≡ j k e))
  | inr e ↦ elim (Bool-cases (eq_key k j)) [
    | inl e' ↦ ap (λ x. eq_key j x) (eq_key→≡ k j e') ∙ ap (λ x. eq_key x j) (sym (eq_key→≡ k j e'))
    | inr e' ↦ e ∙ sym e'
  ]
]

module _ {ℓ} {V : Type ℓ} where
  pub load-store :
      (j k : Key) (v : V) (d : List (Key × V))
      → load k (store j v d) ≡ (if eq_key j k then some v else load k d)
  load-store j k v [] = refl
  load-store j k v ((i, w) ∷ d) = elim (Bool-cases (eq_key i j)) [
    | inl e ↦
        rw (e, eq_key_trans i j k e)
          (elim (Bool-cases (eq_key j k)) [ inl e' ↦ rw e' refl | inr e' ↦ rw e' refl ])
    | inr e ↦
        rw (e, load-store j k v d)
          (elim (Bool-cases (eq_key j k)) [
            | inl e' ↦
                let e'' : eq_key i k ≡ false = ap (eq_key i) (sym (eq_key→≡ j k e')) ∙ e in
                rw (e', e'') refl
            | inr e' ↦ rw e' refl
          ])
  ]

  -- The keys of a map differ.
  abbrev pub Unique : List (Key × V) → Type ℓ
  Unique [] = Unit
  Unique ((k, v) ∷ d) = (load k d ≡ none) × Unique d

  load-same : (j k : Key) (d : List (Key × V)) → eq_key j k ≡ true → load j d ≡ load k d
  load-same j k d e = ap (λ x. load x d) (eq_key→≡ j k e)

  pub load-delete :
      (j k : Key) (d : List (Key × V))
      → Unique d
      → load k (delete j d) ≡ (if eq_key j k then none else load k d)
  load-delete j k [] u = elim (Bool-cases (eq_key j k)) [ inl e ↦ rw e refl | inr e ↦ rw e refl ]
  load-delete j k ((i, w) ∷ d) u = elim (Bool-cases (eq_key i j)) [
    | inl e ↦
        rw (e, eq_key_trans i j k e)
          (elim (Bool-cases (eq_key j k)) [
            | inl e' ↦ rw e' (sym (load-same i k d (eq_key_trans i j k e ∙ e')) ∙ u.0)
            | inr e' ↦ rw e' refl
          ])
    | inr e ↦
        rw (e, load-delete j k d u.1)
          (elim (Bool-cases (eq_key j k)) [
            | inl e' ↦
                let e'' : eq_key i k ≡ false = ap (eq_key i) (sym (eq_key→≡ j k e')) ∙ e in
                rw (e', e'') refl
            | inr e' ↦ rw e' refl
          ])
  ]

  pub store-Unique : (j : Key) (v : V) (d : List (Key × V)) → Unique d → Unique (store j v d)
  store-Unique j v [] u = (refl, tt)
  store-Unique j v ((i, w) ∷ d) u = elim (Bool-cases (eq_key i j)) [
    | inl e ↦ rw e (sym (load-same i j d e) ∙ u.0, u.1)
    | inr e ↦ rw e (load-store j i v d ∙ rw (eq_key-sym j i, e) u.0, store-Unique j v d u.1)
  ]

  pub delete-Unique : (j : Key) (d : List (Key × V)) → Unique d → Unique (delete j d)
  delete-Unique j [] u = tt
  delete-Unique j ((i, w) ∷ d) u = elim (Bool-cases (eq_key i j)) [
    | inl e ↦ rw e u.1
    | inr e ↦ rw e (load-delete j i d u.1 ∙ rw (eq_key-sym j i, e) u.0, delete-Unique j d u.1)
  ]

  pub length-store_absent :
      (j : Key) (v : V) (d : List (Key × V))
      → load j d ≡ none
      → length (store j v d) ≡ suc (length d)
  length-store_absent j v [] h = refl
  length-store_absent j v ((i, w) ∷ d) h = elim (Bool-cases (eq_key i j)) [
    | inl e ↦ absurd (ground arith)
    | inr e ↦ rw e (ap suc (length-store_absent j v d (ground arith)))
  ]

  -- One entry goes when the key is present, and none when it is not.
  pub length-delete :
      (j : Key) (d : List (Key × V))
      → length (delete j d) + (elim (load j d) [ none ↦ 0 | some v ↦ 1 ]) ≡ length d
  length-delete j [] = refl
  length-delete j ((i, w) ∷ d) = elim (Bool-cases (eq_key i j)) [
    | inl e ↦ rw e (omega arith)
    | inr e ↦ rw e (omega (arith, length-delete j d))
  ]
