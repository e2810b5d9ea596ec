-- ===== src/Loops/Closing.antt =====
-- internal/worker.go and internal/tunnel.go: `Push` and `Forward`, which test for the stop and then send,
-- against `Stop`, which closes the channel, as a step relation. Several goroutines may have passed the
-- test and not yet sent.
use fabrica_net.Base.{
  ℕ, suc, Bool, true, false, List, [], ◌∷◌, ◌++◌, ◌≡◌, ◌∙◌, refl, sym, Bool-cases, inl, inr, arith,
}

pub record Channel : Type 0 where
  pub stopping : Bool  -- `OnStopping`
  pub closed : Bool
  pub passed : ℕ  -- goroutines between the test and the send
  pub queue : List (List ℕ)
  pub panicked : Bool

unfoldable pub new_channel : Channel
new_channel = record { stopping = false; closed = false; passed = 0; queue = []; panicked = false }

pub data Step : Channel → Channel → Type 0 where
  passes : (c : Channel) → c.stopping ≡ false → Step c (record c { passed = suc c.passed })
  refused : (c : Channel) → c.stopping ≡ true → Step c c
  sends :
      (c : Channel) (n : ℕ) (p : List ℕ)
      → c.passed ≡ suc n
      → c.closed ≡ false
      → Step c (record c { passed = n; queue = c.queue ++ p ∷ [] })
  panics :
      (c : Channel) (n : ℕ)
      → c.passed ≡ suc n
      → c.closed ≡ true
      → Step c (record c { passed = n; panicked = true })
  receives :
      (c : Channel) (p : List ℕ) (rest : List (List ℕ))
      → c.queue ≡ p ∷ rest
      → Step c (record c { queue = rest })
  begins_stop : (c : Channel) → c.stopping ≡ false → Step c (record c { stopping = true })
  closes :
      (c : Channel) → c.stopping ≡ true → c.closed ≡ false → Step c (record c { closed = true })

infixl 5 ◌then_step◌
pub data Steps : Channel → Channel → Type 0 where
  stay : (c : Channel) → Steps c c
  ◌then_step◌ : {c c' c'' : Channel} → Steps c c' → Step c' c'' → Steps c c''

-- A closed channel is that of a stop that has begun, and a panic is at a closed channel.
abbrev pub IsOrderly : Channel → Type 0
IsOrderly c = (c.closed ≡ true → c.stopping ≡ true) × (c.panicked ≡ true → c.closed ≡ true)

step-IsOrderly : {c c' : Channel} → Step c c' → IsOrderly c → IsOrderly c'
step-IsOrderly (passes c s) h = h
step-IsOrderly (refused c s) h = h
step-IsOrderly (sends c n p q o) h = h
step-IsOrderly (panics c n q o) h = (h.0, λ y. o)
step-IsOrderly (receives c p rest q) h = h
step-IsOrderly (begins_stop c s) h = (λ y. refl, h.1)
step-IsOrderly (closes c s o) h = (λ y. s, λ y. refl)

steps-IsOrderly : {c c' : Channel} → Steps c c' → IsOrderly c → IsOrderly c'
steps-IsOrderly (stay c) h = h
steps-IsOrderly (ss then_step s) h = step-IsOrderly s (steps-IsOrderly ss h)

-- No goroutine stands between the test and the send, and none gets there.
abbrev pub IsDrained : Channel → Type 0
IsDrained c = (c.stopping ≡ true) × (c.passed ≡ 0) × (c.panicked ≡ false)

step-IsDrained : {c c' : Channel} → Step c c' → IsDrained c → IsDrained c'
step-IsDrained (passes c s) (a, b, d) = absurd (let z : true ≡ false = sym a ∙ s in cc)
step-IsDrained (refused c s) h = h
step-IsDrained (sends c n p q o) (a, b, d) = absurd (omega arith)
step-IsDrained (panics c n q o) (a, b, d) = absurd (omega arith)
step-IsDrained (receives c p rest q) h = h
step-IsDrained (begins_stop c s) (a, b, d) = (refl, b, d)
step-IsDrained (closes c s o) (a, b, d) = (a, b, d)

steps-IsDrained : {c c' : Channel} → Steps c c' → IsDrained c → IsDrained c'
steps-IsDrained (stay c) h = h
steps-IsDrained (ss then_step s) h = step-IsDrained s (steps-IsDrained ss h)

-- If no goroutine stands between its test and its send when the channel of a new worker or tunnel is
-- stopping and not yet closed, then no push panics in any state behind that, and none sends any more.
pub drained_never_panics :
    {c c' : Channel}
    → Steps new_channel c
    → Steps c c'
    → c.stopping ≡ true
    → c.closed ≡ false
    → c.passed ≡ 0
    → (c'.panicked ≡ false) × (c'.passed ≡ 0)
unfolding new_channel
drained_never_panics {c = c} before after s o p =
    let orderly = steps-IsOrderly before (
      λ y. absurd (let z : false ≡ true = y in cc),
      λ y. absurd (let z : false ≡ true = y in cc),
    ) in
    let fine : c.panicked ≡ false = elim (Bool-cases c.panicked) [
      | inl y ↦ absurd (let z : true ≡ false = sym (orderly.1 y) ∙ o in cc)
      | inr n ↦ n
    ] in
    let (a, b, d) = steps-IsDrained after (s, p, fine) in (d, b)
