-- ===== src/Tunnels/Overload.antt =====
-- internal/tunnel.go: how many push errors end a tunnel.
use fabrica_net.Base.{
  ℕ, suc, ◌+◌, ◌-◌, ◌≤◌, ◌<◌, Bool, true, false, none, some, List, [], ◌∷◌, take, length, ltb, leb,
  leb→le, ◌*◌, All, Option-cases, Bool-cases, inl, inr, some_inj, ◌≡◌, refl, sym, ap, ◌∙◌, arith,
}
use fabrica_net.Tunnels.{PushErrors, window, most_errors, record_push_err, push_result, sc_loop}

-- The errors since the last success, after `k` before the list.
abbrev pub streak : ℕ → List (ℕ × Bool) → ℕ
streak k [] = k
streak k ((now, true) ∷ ps) = streak 0 ps
streak k ((now, false) ∷ ps) = streak (k + 1) ps

abbrev next_streak : ℕ → Bool → ℕ
next_streak k true = 0
next_streak k false = k + 1

streak-cons :
    (k : ℕ) (p : ℕ × Bool) (ps : List (ℕ × Bool))
    → streak k (p ∷ ps) ≡ streak (next_streak k p.1) ps
streak-cons k (now, true) ps = refl
streak-cons k (now, false) ps = refl

push-count :
    (e : PushErrors) (p : ℕ × Bool) (k : ℕ)
    → e.count ≤ k
    → (push_result e p).1.count ≤ next_streak k p.1
unfolding push_result record_push_err
push-count e (now, true) k h = omega arith
push-count e (now, false) k h = elim (Bool-cases (ltb window (now - e.start_at))) [
  | inl y ↦ rw y (omega arith)
  | inr n ↦ rw n (omega arith)
]

push-overload :
    (e : PushErrors) (p : ℕ × Bool)
    → (push_result e p).0 ≡ true
    → most_errors < (push_result e p).1.count
unfolding push_result record_push_err
push-overload e (now, true) h = ground arith
push-overload e (now, false) h = ground arith

sc_loop-over :
    (e : PushErrors) (p : ℕ × Bool) (ps : List (ℕ × Bool))
    → (push_result e p).0 ≡ true
    → sc_loop e (p ∷ ps) ≡ some 1
unfolding sc_loop
sc_loop-over e p ps h = rw h refl

sc_loop-on :
    (e : PushErrors) (p : ℕ × Bool) (ps : List (ℕ × Bool))
    → (push_result e p).0 ≡ false
    → sc_loop e (p ∷ ps)
      ≡ (elim (sc_loop (push_result e p).1 ps) [ none ↦ none | some n ↦ some (suc n) ])
unfolding sc_loop
sc_loop-on e p ps h = rw h refl

sc_loop-nil : (e : PushErrors) → sc_loop e [] ≡ none
unfolding sc_loop
sc_loop-nil e = refl

streak_from :
    (e : PushErrors) (ps : List (ℕ × Bool)) (k n : ℕ)
    → e.count ≤ k
    → sc_loop e ps ≡ some n
    → most_errors < streak k (take n ps)
streak_from e [] k n h q = let z : none ≡ some n = sym (sc_loop-nil e) ∙ q in absurd cc
streak_from e (p ∷ ps) k n h q = elim (Bool-cases (push_result e p).0) [
  | inl y ↦
      let one : 1 ≡ n = some_inj (sym (sc_loop-over e p ps y) ∙ q) in
      let c = push-count e p k h in
      let o = push-overload e p y in
      let s : streak k (take n (p ∷ ps)) ≡ next_streak k p.1 =
        ap (λ i. streak k (take i (p ∷ ps))) (sym one) ∙ streak-cons k p [] in
      omega arith
  | inr y ↦ elim (Option-cases (sc_loop (push_result e p).1 ps)) [
    | inl a ↦
        let z : none ≡ some n =
          sym (ap (λ o. elim o [ none ↦ none | some n ↦ some (suc n) ]) a)
          ∙ sym (sc_loop-on e p ps y)
          ∙ q in
        absurd cc
    | inr (m, a) ↦
        let z : suc m ≡ n = some_inj (
          sym (ap (λ o. elim o [ none ↦ none | some n ↦ some (suc n) ]) a)
          ∙ sym (sc_loop-on e p ps y)
          ∙ q) in
        let r = streak_from (push_result e p).1 ps (next_streak k p.1) m (push-count e p k h) a in
        let s : streak k (take n (p ∷ ps)) ≡ streak (next_streak k p.1) (take m ps) =
          ap (λ i. streak k (take i (p ∷ ps))) (sym z) ∙ streak-cons k p (take m ps) in
        omega arith
  ]
]

-- From a state with no errors counted, if a push error ends the loop, then the last pushes up to it,
-- more than ten of them, all failed.
pub overload-streak :
    (e : PushErrors) (ps : List (ℕ × Bool)) (n : ℕ)
    → e.count ≡ 0
    → sc_loop e ps ≡ some n
    → most_errors < streak 0 (take n ps)
overload-streak e ps n h q = streak_from e ps 0 n (omega arith) q

-- Pushes that all fail at times from `t` to `u`.
abbrev pub FailsIn : ℕ → ℕ → List (ℕ × Bool) → Type 0
FailsIn t u ps = All (λ p. (p.1 ≡ false) × (t ≤ p.0) × (p.0 ≤ u)) ps

-- What a failed push does inside the window, and behind it.
inside :
    (e : PushErrors) (now : ℕ)
    → now ≤ e.start_at + window
    → (push_result e (now, false)).1 ≡ record e { count = e.count + 1 }
unfolding push_result record_push_err
inside e now h = let n : ltb window (now - e.start_at) ≡ false = ground arith in rw n refl

behind :
    (e : PushErrors) (now : ℕ)
    → e.start_at + window < now
    → (push_result e (now, false)).1 ≡ record { start_at = now; count = 1 }
unfolding push_result record_push_err
behind e now h = let y : ltb window (now - e.start_at) ≡ true = ground arith in rw y refl

push-under :
    (e : PushErrors) (now : ℕ)
    → (push_result e (now, false)).0 ≡ false
    → (push_result e (now, false)).1.count ≤ most_errors
unfolding push_result record_push_err
push-under e now h = ground arith

-- One more push, if the loop ends by a later one.
later :
    (e : PushErrors) (p : ℕ × Bool) (ps : List (ℕ × Bool))
    → ((push_result e p).0 ≡ false → (n : ℕ) × (sc_loop (push_result e p).1 ps ≡ some n))
    → (n : ℕ) × (sc_loop e (p ∷ ps) ≡ some n)
later e p ps f = elim (Bool-cases (push_result e p).0) [
  | inl y ↦ (1, sc_loop-over e p ps y)
  | inr y ↦
      let (n, q) = f y in
      (suc n, sc_loop-on e p ps y ∙ ap (λ o. elim o [ none ↦ none | some n ↦ some (suc n) ]) q)
]

-- No push is behind the window of `e`.
ends_inside :
    (e : PushErrors) (t u : ℕ) (ps : List (ℕ × Bool))
    → u ≤ e.start_at + window
    → FailsIn t u ps
    → e.count ≤ most_errors
    → most_errors < e.count + length ps
    → (n : ℕ) × (sc_loop e ps ≡ some n)
ends_inside e t u [] w h k l = absurd (omega arith)
ends_inside e t u ((now, true) ∷ ps) w h k l = let q = h.0.0 in absurd cc
ends_inside e t u ((now, false) ∷ ps) w h k l =
    later e (now, false) ps
      (λ y.
        let e' = (push_result e (now, false)).1 in
        let q = inside e now (omega arith) in
        let s : e'.start_at ≡ e.start_at = ap (λ x. x.start_at) q in
        let c : e'.count ≡ e.count + 1 = ap (λ x. x.count) q in
        ends_inside e' t u ps (omega arith) h.1 (push-under e now y) (omega arith))

ends_over :
    (e : PushErrors) (t : ℕ) (ps : List (ℕ × Bool))
    → e.start_at ≤ t
    → FailsIn t (t + window) ps
    → e.count ≤ most_errors
    → 2 * most_errors < e.count + length ps
    → (n : ℕ) × (sc_loop e ps ≡ some n)
ends_over e t [] w h k l = absurd (omega arith)
ends_over e t ((now, true) ∷ ps) w h k l = let q = h.0.0 in absurd cc
ends_over e t ((now, false) ∷ ps) w h k l =
    later e (now, false) ps
      (λ y.
        let e' = (push_result e (now, false)).1 in
        elim (Bool-cases (leb now (e.start_at + window))) [
          | inl a ↦
              let q = inside e now (leb→le _ _ a) in
              let s : e'.start_at ≡ e.start_at = ap (λ x. x.start_at) q in
              let c : e'.count ≡ e.count + 1 = ap (λ x. x.count) q in
              ends_over e' t ps (omega arith) h.1 (push-under e now y) (omega arith)
          | inr a ↦
              let q = behind e now (ground arith) in
              let s : e'.start_at ≡ now = ap (λ x. x.start_at) q in
              let c : e'.count ≡ 1 = ap (λ x. x.count) q in
              ends_inside e' t (t + window) ps (omega arith) h.1 (omega arith) (omega arith)
        ])

-- More than twenty failed pushes in a row within ten seconds end the loop, in every state with at most
-- ten errors counted and a window that started before them, wherever the end of that window stands.
pub overload_within_window :
    (e : PushErrors) (t : ℕ) (ps : List (ℕ × Bool))
    → e.start_at ≤ t
    → e.count ≤ most_errors
    → FailsIn t (t + window) ps
    → 2 * most_errors < length ps
    → (n : ℕ) × (sc_loop e ps ≡ some n)
overload_within_window e t ps w k h l = ends_over e t ps w h k (omega arith)
