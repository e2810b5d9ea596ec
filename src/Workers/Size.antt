-- ===== src/Workers/Size.antt =====
-- internal/workermanager.go: what `size` counts over a history of `Put` and `Del`.
use fabrica_net.Base.{ℕ, ◌+◌, ◌≡◌, Option, none, some, List, [], ◌∷◌, length, sub_ℕ}
use fabrica_net.Workers.{Worker, Bucket, Manager}
use fabrica_net.Workers.History.{Call, put_call, del_call, call_spec, calls_spec}

-- How many workers the buckets hold.
abbrev pub total : List Bucket → ℕ
total [] = 0
total (b ∷ bs) = length b + total bs

-- A `Del` of a worker id that is not there.
abbrev pub idle : Call → (ℕ → Option Worker) → ℕ
idle (put_call w) s = 0
idle (del_call wid) s = elim (s wid) [ none ↦ 1 | some w ↦ 0 ]

pub idle_calls : List Call → (ℕ → Option Worker) → ℕ
unfolding calls_spec
idle_calls [] s = 0
idle_calls (c ∷ cs) s = idle c s + idle_calls cs (call_spec c s)

-- `size` is the number of workers less a debt.
abbrev pub Owes : Manager → ℕ → Type 0
Owes m d = m.size ≡ sub_ℕ (total m.buckets) d
