-- ===== src/Predictions/Entity/Lifecycle.antt =====
-- The life of a prediction: its transitions as a step relation, which the methods implement, and
-- what holds of every history.
use chiliztv_com.Base.{
  ℕ, String, Bool, true, List, [], ◌∷◌, ◌≡◌, refl, ◌↔◌, ◌⊎◌, Result, ok, throws, arith, is_some,
  is_ok,
}
use chiliztv_com.Predictions.Values.{ValidationError}
use chiliztv_com.Predictions.Entity.{
  PredictionStatus, pending, in_progress, won, lost, cancelled, Prediction, settle, cancel,
  mark_in_progress,
}

-- A call of a method.
pub data Call : Type 0 where
  settles : ℕ → ℕ → String → Bool → Call
  cancels marks : ℕ → Call

unfoldable pub perform : Call → Prediction → Result ValidationError Prediction
unfolding settle cancel mark_in_progress
perform (settles now later actual is_win) p = settle now later actual is_win p
perform (cancels now) p = cancel now p
perform (marks now) p = mark_in_progress now p

-- A caller that goes on after an exception keeps the entity.
abbrev survive : Result ValidationError Prediction → Prediction → Prediction
survive (ok p) q = p
survive (throws e) q = q

unfoldable pub run : List Call → Prediction → Prediction
run [] p = p
run (c ∷ cs) p = run cs (survive (perform c p) p)

infix 40 ◌⟶◌
-- The diagram of the statuses.
pub data ◌⟶◌ : PredictionStatus → PredictionStatus → Type 0 where
  begin : pending ⟶ in_progress
  withdraw : pending ⟶ cancelled
  win_early : pending ⟶ won
  lose_early : pending ⟶ lost
  win : in_progress ⟶ won
  lose : in_progress ⟶ lost

ruleset edges = (begin, withdraw, win_early, lose_early, win, lose)

-- A call that returns follows an edge of the diagram.
pub perform-⟶ :
    (c : Call) (p : Prediction) {q : Prediction} → perform c p ≡ ok q → p.status ⟶ q.status
unfolding perform
perform-⟶ c p e = grind (arith, edges)

-- The statuses from which a call returns.
abbrev Admits : Call → PredictionStatus → Type 0
Admits (settles now later actual is_win) s = (s ≡ pending) ⊎ (s ≡ in_progress)
Admits (cancels now) s = s ≡ pending
Admits (marks now) s = s ≡ pending

-- A call returns exactly from the statuses that it admits: settling from pending and from in
-- progress, cancelling and marking from pending alone.
perform-Admits : (c : Call) (p : Prediction) → (is_ok (perform c p) ≡ true) ↔ Admits c p.status
unfolding perform
perform-Admits (settles now later actual is_win) p = ground arith
perform-Admits (cancels now) p = ground arith
perform-Admits (marks now) p = ground arith

abbrev IsTerminal : PredictionStatus → Type 0
IsTerminal s = (s ≡ won) ⊎ (s ≡ lost) ⊎ (s ≡ cancelled)

survive_of_IsTerminal :
    (c : Call) (p : Prediction) → IsTerminal p.status → survive (perform c p) p ≡ p
unfolding perform
survive_of_IsTerminal c p t = ground arith

-- A settled or cancelled prediction never changes again, whatever is called on it.
pub run_of_IsTerminal : (cs : List Call) (p : Prediction) → IsTerminal p.status → run cs p ≡ p
unfolding run
run_of_IsTerminal [] p t = refl
run_of_IsTerminal (c ∷ cs) p t = rw (survive_of_IsTerminal c p t) (run_of_IsTerminal cs p t)

-- The settlement date and the result are there exactly when the prediction was won or lost.
pub record IsSettledOnce (p : Prediction) : Type 0 where
  pub dated : (is_some p.settled_at ≡ true) ↔ ((p.status ≡ won) ⊎ (p.status ≡ lost))
  pub resulted : (is_some p.actual_result ≡ true) ↔ ((p.status ≡ won) ⊎ (p.status ≡ lost))

survive-IsSettledOnce :
    (c : Call) (p : Prediction) → IsSettledOnce p → IsSettledOnce (survive (perform c p) p)
unfolding perform
survive-IsSettledOnce c p h = ground arith

-- From a prediction without a settlement, every history keeps the settlement date and the result in
-- step with the status.
run-IsSettledOnce : (cs : List Call) (p : Prediction) → IsSettledOnce p → IsSettledOnce (run cs p)
unfolding run
run-IsSettledOnce [] p h = h
run-IsSettledOnce (c ∷ cs) p h =
    run-IsSettledOnce cs (survive (perform c p) p) (survive-IsSettledOnce c p h)
