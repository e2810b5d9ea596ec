-- ===== src/Net.antt =====
-- internal/listener.go: the ids of connections; client/option.go: the ids of dialogs.
pub mod Ids
mod Tests
use fabrica_net.Base.{ℕ, zero, suc, ◌+◌, ◌-◌, ◌*◌, ◌%◌, ◌^◌, bit_or, ℤ, pos, negsuc}

pub record ConnIdGenerator : Type 0 where
  pub counter : ℕ  -- an `atomic.Uint64`
  pub net_type : ℕ

unfoldable pub new_conn_id_generator : ℕ → ConnIdGenerator
new_conn_id_generator t = record { counter = 0; net_type = t }

-- `counter.Add(1)<<4 | uint64(netType)`
unfoldable pub next : ConnIdGenerator → ℕ × ConnIdGenerator
next g =
    let c = (g.counter + 1) % 2 ^ 64 in
    (bit_or (c * 16 % 2 ^ 64) (g.net_type % 2 ^ 64), record g { counter = c })

-- The id of the call of `Next` that `i` calls precede.
pub nth_id : ℕ → ConnIdGenerator → ℕ
unfolding next
nth_id zero g = (next g).0
nth_id (suc i) g = nth_id i (next g).1

-- `uint64(id)` of an int64.
abbrev pub uint64_of : ℤ → ℕ
uint64_of (pos n) = n % 2 ^ 64
uint64_of (negsuc n) = 2 ^ 64 - n - 1

unfoldable pub dialog_id : ℤ → ℕ → ℕ
dialog_id id index = (uint64_of id * 100 + index) % 2 ^ 64
