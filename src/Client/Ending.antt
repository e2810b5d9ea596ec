-- ===== src/Client/Ending.antt =====
-- internal/client.go: a client after its `Stop`.
use fabrica_net.Base.{
  ℕ, Bool, true, none, some, List, [], ◌∷◌, Bool-cases, some_inj, inl, inr, ◌≡◌, ◌∙◌, refl, sym,
  subst, All,
}
use fabrica_net.Dialog.{Dialog, DialogError, Answers, send, is_stopped}
use fabrica_net.Dialog
use fabrica_net.Dialog.Starting.{send-stopped}
use fabrica_net.Workers.{Key, uint64_key, load, eq_key}
use fabrica_net.Client.{BaseClient, stop_dialogs, stop, dialog}

dialog_stops : (closed : Bool) (d : Dialog) → (Dialog.stop closed d).1.stopping ≡ true
unfolding Dialog.stop
dialog_stops closed d = elim (Bool-cases d.stopping) [
  | inl y ↦ rw (Dialog.stop, y) refl
  | inr n ↦ rw (Dialog.stop, n) refl
]

stop_dialogs-All :
    (closed : ℕ → Bool) (ds : List (Key × Dialog))
    → All (λ (e : Key × Dialog). e.1.stopping ≡ true) (stop_dialogs closed ds).1
unfolding stop_dialogs
stop_dialogs-All closed [] = tt
stop_dialogs-All closed ((k, d) ∷ ds) = (dialog_stops (closed d.id) d, stop_dialogs-All closed ds)

load-All :
    (P : Dialog → Type 0) (k : Key) (ds : List (Key × Dialog)) (d : Dialog)
    → All (λ (e : Key × Dialog). P e.1) ds
    → load k ds ≡ some d
    → P d
load-All P k [] d h e = absurd (let z : none ≡ some d = e in cc)
load-All P k ((j, x) ∷ ds) d h e = elim (Bool-cases (eq_key j k)) [
  | inl y ↦
      let same : load k ((j, x) ∷ ds) ≡ some x = rw y refl in subst P (some_inj (sym same ∙ e)) h.0
  | inr n ↦
      load-All P k ds d h.1
        (let same : load k ((j, x) ∷ ds) ≡ load k ds = rw n refl in sym same ∙ e)
]

-- After `Stop`, however the closings went, a dialog that a lookup of the client gives refuses to send,
-- and a second `Stop` panics.
pub stop-refuses :
    (closed closed' : ℕ → Bool) (ok ok' : Bool) (c : BaseClient) (e : Answers) (id : ℕ) (d : Dialog)
    (pack : List ℕ)
    → dialog (stop closed ok c).1 id ≡ some d
    → (send e d pack ≡ (some is_stopped, [])) × ((stop closed' ok' (stop closed ok c).1).0 ≡ none)
unfolding stop dialog
stop-refuses closed closed' ok ok' c e id d pack h = (
  send-stopped e d pack (
      load-All (λ x. x.stopping ≡ true) (uint64_key id) (stop_dialogs closed c.dialogs).1 d
        (stop_dialogs-All closed c.dialogs) h),
  refl,
)
