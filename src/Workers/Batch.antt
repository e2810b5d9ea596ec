-- ===== src/Workers/Batch.antt =====
-- internal/workermanager.go: `GetByUIDs`, which groups its lookups by bucket, gives what `GetByUID` gives.
use fabrica_net.Base.{
  ℕ, ◌≡◌, refl, sym, ap, ◌∙◌, subst, inl, inr, Bool, true, false, ◌||◌, ◌&&◌, Option, none, some,
  List, [], ◌∷◌, ◌==◌, if◌then◌else◌, Bool-cases, Option-cases, arith, All, get_or, replicate,
  length-replicate, ℤ, ==_iff,
}
use fabrica_net.Workers.{
  Worker, int64_key, eq_ℤ, load, UidWids, Manager, worker, get_by_uid, get_bucket_key, wids_of,
  distribute, get_by_uids,
}
use fabrica_net.Workers.Maps.{eq_ℤ→≡, eq_ℤ-self}
use fabrica_net.Workers.Shard.{IsSharded, get_bucket_key-lt}
use fabrica_net.Workers.Uids.{wid_of}
use fabrica_net.Workers.Owner.{IsUserMap}
use fabrica_net.Workers.Collect.{any, asked, is, or_else, read, FitsIn, collect-at, collect-nowhere}
use fabrica_net.Workers.Distribute.{
  any-distribute, distribute-All, length-distribute, get_or-empty, any-never, any-congr,
  and-is-here, and-is-there,
}

or_else-none : (o : Option Worker) → or_else o none ≡ o
or_else-none none = refl
or_else-none (some w) = refl

if-none : (b : Bool) → ◌≡◌ {A = Option Worker} none (if b then none else none)
if-none true = refl
if-none false = refl

module _ (owner : ℕ → ℤ) (uids : UidWids) (m : Manager) (v : IsSharded m)
    (k : IsUserMap owner uids m) where
  abbrev keys_of : List ℤ → List (List ℕ)
  keys_of us = distribute m.shard_count (wids_of uids us) (replicate m.shard_count [])

  one_fits : (u u' : ℤ) (x : ℕ) → wid_of uids u' ≡ some x → eq_ℤ (owner x) u ≡ is (wid_of uids u) x
  one_fits u u' x e = elim (Bool-cases (eq_ℤ (owner x) u)) [
    | inl y ↦
        let q : u' ≡ u = sym (k.of_map u' x e) ∙ eq_ℤ→≡ _ _ y in
        y ∙ sym (ap (λ z. is (wid_of uids z) x) (sym q) ∙ ap (λ o. is o x) e ∙ (==_iff x x).1 refl)
    | inr d ↦ elim (Option-cases (wid_of uids u)) [
      | inl a ↦ d ∙ sym (ap (λ o. is o x) a)
      | inr (y, a) ↦ elim (Bool-cases (x == y)) [
        | inl b ↦
            let q : x ≡ y = (==_iff _ _).0 b in
            let t : eq_ℤ (owner x) u ≡ true =
              ap (λ z. eq_ℤ z u) (ap owner q ∙ k.of_map u y a) ∙ eq_ℤ-self u in
            absurd cc
        | inr b ↦ d ∙ sym (ap (λ o. is o x) a ∙ b)
      ]
    ]
  ]

  wids_of-skip :
      (u' : ℤ) (us : List ℤ) → wid_of uids u' ≡ none → wids_of uids (u' ∷ us) ≡ wids_of uids us
  unfolding wids_of
  wids_of-skip u' us a =
      ap (λ o. elim o [ none ↦ wids_of uids us | some wid ↦ wid ∷ wids_of uids us ]) a

  wids_of-take :
      (u' : ℤ) (us : List ℤ) (x : ℕ)
      → wid_of uids u' ≡ some x
      → wids_of uids (u' ∷ us) ≡ x ∷ wids_of uids us
  unfolding wids_of
  wids_of-take u' us x a =
      ap (λ o. elim o [ none ↦ wids_of uids us | some wid ↦ wid ∷ wids_of uids us ]) a

  wids_of-All :
      (P : ℕ → Type 0) (us : List ℤ)
      → ((u' : ℤ) (x : ℕ) → wid_of uids u' ≡ some x → P x)
      → All P (wids_of uids us)
  unfolding wids_of
  wids_of-All P [] f = tt
  wids_of-All P (u' ∷ us) f = elim (Option-cases (load (int64_key u') uids)) [
    | inl a ↦ subst (All P) (sym (wids_of-skip u' us a)) (wids_of-All P us f)
    | inr (x, a) ↦ subst (All P) (sym (wids_of-take u' us x a)) (f u' x a, wids_of-All P us f)
  ]

  -- The id of a user is looked up exactly if the user is asked for.
  any-wids_of :
      (u : ℤ) (y : ℕ) (us : List ℤ)
      → wid_of uids u ≡ some y
      → any (is (some y)) (wids_of uids us) ≡ asked u us
  unfolding wids_of
  any-wids_of u y [] e = refl
  any-wids_of u y (u' ∷ us) e = elim (Option-cases (load (int64_key u') uids)) [
    | inl a ↦ elim (Bool-cases (eq_ℤ u' u)) [
      | inl t ↦
          let q : wid_of uids u ≡ none = ap (wid_of uids) (sym (eq_ℤ→≡ u' u t)) ∙ a in absurd cc
      | inr t ↦ ap (any (is (some y))) (wids_of-skip u' us a) ∙ rw t (any-wids_of u y us e)
    ]
    | inr (x, a) ↦
        let t : is (some y) x ≡ eq_ℤ u' u =
          sym
            (ap (λ z. eq_ℤ z u) (sym (k.of_map u' x a)) ∙ one_fits u u' x a ∙ ap (λ o. is o x) e) in
        ap (any (is (some y))) (wids_of-take u' us x a)
        ∙ ap (λ b. is (some y) x || b) (any-wids_of u y us e)
        ∙ ap (λ b. b || asked u us) t
  ]

  All-fit :
      (u : ℤ) (us : List ℤ) (i : ℕ)
      → All (FitsIn u (wid_of uids u) owner (get_or m.buckets i [])) (get_or (keys_of us) i [])
  unfolding worker
  All-fit u us i =
      distribute-All m.shard_count v.some_shard v.small
        (λ j x. FitsIn u (wid_of uids u) owner (get_or m.buckets j []) x) (wids_of uids us)
        (replicate m.shard_count []) (length-replicate _ _)
        (wids_of-All _ us (λ u' x e. (one_fits u u' x e, λ w b. k.of_worker x w b)))
        (λ j. subst (All _) (sym (get_or-empty m.shard_count j)) tt) i

  get_by_uids-none :
      (us : List ℤ) (u : ℤ) → wid_of uids u ≡ none → read u (get_by_uids uids m us) ≡ none
  unfolding get_by_uids
  get_by_uids-none us u e =
      collect-nowhere u none owner m.buckets (keys_of us) []
        (λ i.
          subst (λ g. All (FitsIn u g owner (get_or m.buckets i [])) (get_or (keys_of us) i [])) e
            (All-fit u us i))
        (λ i. any-never (get_or (keys_of us) i []) (is none) (λ x. refl))

  get_by_uids-some :
      (us : List ℤ) (u : ℤ) (y : ℕ)
      → wid_of uids u ≡ some y
      → read u (get_by_uids uids m us) ≡ (if asked u us then worker m y else none)
  unfolding get_by_uids worker
  get_by_uids-some us u y e =
      let j = get_bucket_key y m.shard_count in
      let moved : (i : ℕ)
          → any (is (some y)) (get_or (keys_of us) i [])
            ≡ any (λ x. (get_bucket_key x m.shard_count == i) && is (some y) x) (wids_of uids us) =
        λ i.
          any-distribute m.shard_count v.some_shard v.small (is (some y)) (wids_of uids us)
            (replicate m.shard_count []) i (length-replicate _ _)
          ∙ ap
              (λ z.
                any (is (some y)) z
                || any (λ x. (get_bucket_key x m.shard_count == i) && is (some y) x)
                    (wids_of uids us))
              (get_or-empty m.shard_count i) in
      let in_j : any (is (some y)) (get_or (keys_of us) j []) ≡ asked u us =
        moved j ∙ any-congr _ _ _ (and-is-here m.shard_count y j refl) ∙ any-wids_of u y us e in
      collect-at u (some y) owner j m.buckets (keys_of us) []
        (omega (arith, get_bucket_key-lt y m.shard_count v.some_shard v.small, v.counted))
        (v.counted
          ∙ sym (
              length-distribute m.shard_count v.some_shard v.small (wids_of uids us)
                (replicate m.shard_count [])
              ∙ length-replicate _ _))
        (λ i.
          subst (λ g. All (FitsIn u g owner (get_or m.buckets i [])) (get_or (keys_of us) i [])) e
            (All-fit u us i))
        (λ i ne. moved i ∙ any-never _ _ (and-is-there m.shard_count y i ne))
      ∙ ap (λ b. if b then or_else (worker m y) none else none) in_j
      ∙ ap (λ o. if asked u us then o else none) (or_else-none (worker m y))

  -- In a sharded state in which each worker id is of one user, `GetByUIDs` has under a user id the worker that
  -- `GetByUID` returns for it if the id is asked for, and nothing under any other id, in whatever order
  -- and however often the ids are asked for and whichever buckets the workers stand in.
  pub get_by_uids-get_by_uid :
      (us : List ℤ) (u : ℤ)
      → load (int64_key u) (get_by_uids uids m us)
        ≡ (if asked u us then get_by_uid uids m u else none)
  unfolding get_by_uid worker
  get_by_uids-get_by_uid us u = elim (Option-cases (wid_of uids u)) [
    | inl e ↦
        get_by_uids-none us u e
        ∙ if-none (asked u us)
        ∙ ap (λ o. if asked u us then o else none)
            (sym (ap (λ o. elim o [ none ↦ none | some wid ↦ worker m wid ]) e))
    | inr (y, e) ↦
        get_by_uids-some us u y e
        ∙ ap (λ o. if asked u us then o else none)
            (sym (ap (λ o. elim o [ none ↦ none | some wid ↦ worker m wid ]) e))
  ]
