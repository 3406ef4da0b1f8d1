-- ===== src/Checkpoint/Lifecycle/Graph.antt =====
-- The transition table as a graph: terminal statuses, and cancellation.
use tsagent.Prelude.{◌≡◌, ◌↔◌, refl, ap, arith, true, false, inl, inr, Bool-cases}
use tsagent.Checkpoint.Codes.{
  CheckpointStatus, created, running, suspended, waiting_user, failed_recoverable, cancelled,
  is_terminal,
}
use tsagent.Checkpoint.Lifecycle.{allowed_transition}

-- Any number of allowed transitions.
pub data Reach (s : CheckpointStatus) : CheckpointStatus → Type 0 where
  here : Reach s s
  next : {t u : CheckpointStatus} → Reach s t → allowed_transition t u ≡ true → Reach s u

step_of_terminal : (s t : CheckpointStatus) → is_terminal s ≡ true → allowed_transition s t ≡ false
unfolding allowed_transition
step_of_terminal s t h = ground arith

stays : {s t : CheckpointStatus} → is_terminal s ≡ true → Reach s t → t ≡ s
stays h here = refl
stays {s} h (next {t = t} {u = u} r a) =
    let e : t ≡ s = stays h r in cc (step_of_terminal s u h, ap (λ x. allowed_transition x u) e, a)

-- A Run that has not ended can still be cancelled, by transitions of the table.
pub reach_cancelled : (s : CheckpointStatus) → is_terminal s ≡ false → Reach s cancelled
unfolding allowed_transition
reach_cancelled created h = next here refl
reach_cancelled running h = next {t = suspended} (next here refl) refl
reach_cancelled suspended h = next here refl
reach_cancelled waiting_user h = next here refl
reach_cancelled failed_recoverable h = next here refl
reach_cancelled _ h = cc

-- A Run that has not ended can run again, if need be by way of a suspension.
pub reach_running : (s : CheckpointStatus) → is_terminal s ≡ false → Reach s running
unfolding allowed_transition
reach_running created h = next here refl
reach_running running h = here
reach_running suspended h = next here refl
reach_running waiting_user h = next {t = suspended} (next here refl) refl
reach_running failed_recoverable h = next {t = suspended} (next here refl) refl
reach_running _ h = cc

-- The validator's terminal statuses are exactly those that no transition leaves.
pub terminal_iff :
    (s : CheckpointStatus) → (is_terminal s ≡ true) ↔ ((t : CheckpointStatus) → Reach s t → t ≡ s)
terminal_iff s = (λ h t r. stays h r, final)
  where
    final : ((t : CheckpointStatus) → Reach s t → t ≡ s) → is_terminal s ≡ true
    final f = elim (Bool-cases (is_terminal s)) [
      | inl e ↦ e
      | inr e ↦ cc (ap is_terminal (f cancelled (reach_cancelled s e)))
    ]
