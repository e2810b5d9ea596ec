-- ===== src/Tunnels.antt =====
-- internal/tunnelmanager.go: a worker's tunnels by type and object; internal/tunnel.go: the errors of
-- pushing that end a tunnel. Times are nanoseconds.
pub mod Groups
pub mod Overload
pub mod Stop
mod Tests
use fabrica_net.Base.{
  ℕ, zero, suc, ◌+◌, ◌-◌, ◌*◌, ◌^◌, ◌<◌, Bool, true, false, Option, none, some, List, [], ◌∷◌, ◌++◌,
  ltb, ◌==◌, if◌then◌else◌, ◌≡◌,
}

-- A map with numbers for keys (the int32 and int64 keys of the source, as their bit patterns).
abbrev pub load {ℓ} : {V : Type ℓ} → ℕ → List (ℕ × V) → Option V
load k [] = none
load k ((j, v) ∷ d) = if j == k then some v else load k d

abbrev pub store {ℓ} : {V : Type ℓ} → ℕ → V → List (ℕ × V) → List (ℕ × V)
store k v [] = (k, v) ∷ []
store k v ((j, w) ∷ d) = if j == k then (k, v) ∷ d else (j, w) ∷ store k v d

-- `tunnelGroups`, with `make` for a group that is not there. `OnStopping` is asked under the lock; a
-- tunnel that is created may be in any state.
module _ {T : Type 0} (on_stopping : T → Bool) where
  abbrev pub Groups : Type 0
  Groups = List (ℕ × List (ℕ × T))

  abbrev pub group : Groups → ℕ → List (ℕ × T)
  group g tp = elim (load tp g) [ none ↦ [] | some tg ↦ tg ]

  -- `!ok || t.OnStopping()`
  abbrev pub live : Option T → Option T
  live none = none
  live (some t) = if on_stopping t then none else some t

  pub tunnel : Groups → ℕ → ℕ → Option T
  tunnel g tp oid = elim (load tp g) [ none ↦ none | some tg ↦ live (load oid tg) ]

  -- The group is put in place before `create` is called, and stays if it fails. `S` is what `create`
  -- changes.
  pub create_tunnel :
      {S : Type 0} → (S → ℕ → ℕ → Option T × S) → S → Groups → ℕ → ℕ → Option T × S × Groups
  create_tunnel create s g tp oid =
      let tg = group g tp in
      let made = create s tp oid in
      elim (live (load oid tg)) [
        | some t ↦ (some t, s, store tp tg g)
        | none ↦ elim made.0 [
          | none ↦ (none, made.1, store tp tg g)
          | some t ↦ (some t, made.1, store tp (store oid t tg) g)
        ]
      ]

  -- `stop`: the tunnels whose `Stop` is called, and the groups that are left. Its error is nil always.
  abbrev pub tunnels_of : List (ℕ × T) → List T
  tunnels_of [] = []
  tunnels_of ((oid, t) ∷ tg) = t ∷ tunnels_of tg

  pub stop : Groups → List T × Groups
  stop [] = ([], [])
  stop ((tp, tg) ∷ g) = let (stopped, left) = stop g in (tunnels_of tg ++ stopped, left)

-- `recordPushErrStartAt` and `recordPushErrCount`, the fields; the constants of those names are 10
-- seconds and 10.
pub record PushErrors : Type 0 where
  pub start_at : ℕ
  pub count : ℕ

abbrev pub window : ℕ
window = 10 * 10 ^ 9

abbrev pub most_errors : ℕ
most_errors = 10

pub record_push_err : PushErrors → ℕ → Bool × PushErrors
record_push_err e now =
    let fresh = if ltb window (now - e.start_at) then record { start_at = now; count = 0 } else e in
    let counted = record fresh { count = fresh.count + 1 } in
    (ltb most_errors counted.count, counted)

-- One push in `scLoop`: its time, and whether it succeeded.
pub push_result : PushErrors → ℕ × Bool → Bool × PushErrors
unfolding record_push_err
push_result e (now, true) = (false, record e { count = 0 })
push_result e (now, false) = record_push_err e now

-- The pushes of `scLoop`: the number of those done when an error ends it, if one does.
pub sc_loop : PushErrors → List (ℕ × Bool) → Option ℕ
unfolding push_result
sc_loop e [] = none
sc_loop e (p ∷ ps) =
    let (overload, e') = push_result e p in
    let rest = sc_loop e' ps in
    if overload then some 1 else elim rest [ none ↦ none | some n ↦ some (suc n) ]
