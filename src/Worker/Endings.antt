-- ===== src/Worker/Endings.antt =====
-- How the runs of the pipelines end.
use mathlib.Core.Path.{subst}
use external_domain_broker.Prelude.{
  ℕ, zero, suc, ◌≡◌, refl, ap, sym, ◌⊎◌, inl, inr, Bool, true, false, not, ◌&&◌, none, List, [],
  ◌∷◌, arith, ◌∙◌, Bool-cases,
}
use external_domain_broker.Pipelines.{
  Task, provision, update_complete, deprovision, cancel_pending_provisioning, Call, Passing,
  positional, keyword, Pipeline, calls,
}
use external_domain_broker.Models.{Operation, in_progress, succeeded, Action, same_action}
use external_domain_broker.Worker.Steps.{description}
use external_domain_broker.Worker.Hooks.{describe, complete}
use external_domain_broker.Worker.Runs.{
  Run, Outcome, returned, raised, gave_up, start, attempt, attempts, next_call, retry,
  first_retries, perform, effect, is_positional, was_canceled,
}

-- The tasks that complete the operation.
abbrev pub is_last : Task → Bool
is_last provision = true
is_last update_complete = true
is_last deprovision = true
is_last _ = false

-- The last call completes the operation, and no call before it does.
abbrev pub completes : List Call → Bool
completes [] = false
completes (c ∷ []) = is_last c.task
completes (c ∷ d ∷ cs) = not (is_last c.task) && completes (d ∷ cs)

completes-calls : (p : Pipeline) → completes (calls p) ≡ true
unfolding calls
completes-calls Pipeline.alb_provision = refl
completes-calls _ = refl

-- The run is over, or the operation is in progress and will be completed by the last call.
abbrev pub IsOpen : Run → Type 0
IsOpen r = (r.calls ≡ []) ⊎ ((r.operation.state ≡ in_progress) × (completes r.calls ≡ true))

describe-state : (t : Task) (o : Operation) → (describe (description t) o).state ≡ o.state
describe-state t o = ground arith

effect-state :
    (now : ℕ) (t : Task) (o : Operation) → is_last t ≡ false → (effect now t o).state ≡ o.state
effect-state now t o h = ground arith

retry-IsOpen :
    (n : ℕ) (passing : Passing) (o : Operation) (r : Run)
    → o.state ≡ in_progress
    → completes r.calls ≡ true
    → IsOpen (retry n passing o r)
retry-IsOpen zero positional o r h k = inl refl
retry-IsOpen zero keyword o r h k = inl refl
retry-IsOpen (suc n) passing o r h k = inr (h, k)

perform-IsOpen :
    (now : ℕ) (outcome : Outcome) (c : Call) (cs : List Call) (o : Operation) (r : Run)
    → o.state ≡ in_progress
    → completes (c ∷ cs) ≡ true
    → r.calls ≡ c ∷ cs
    → IsOpen (perform now outcome c cs o r)
perform-IsOpen now returned c [] o r h k e = inl refl
perform-IsOpen now returned c (d ∷ cs) o r h k e = ground (arith, effect-state now c.task o)
perform-IsOpen now raised c cs o r h k e = retry-IsOpen r.retries c.passing o r h (rw e k)
perform-IsOpen now gave_up c cs o r h k e = inl refl

next_call-IsOpen :
    (now : ℕ) (outcome : Outcome) (cs : List Call) (r : Run)
    → r.calls ≡ cs
    → IsOpen r
    → IsOpen (next_call now outcome cs r)
unfolding next_call
next_call-IsOpen now outcome [] r e h = h
next_call-IsOpen now outcome (c ∷ cs) r e (inl over) = cc
next_call-IsOpen now outcome (c ∷ cs) r e (inr (h, k)) =
    elim (Bool-cases (is_positional c.passing && was_canceled r.operation)) [
      | inl stopped ↦ rw stopped (inl refl)
      | inr on ↦ rw on (
          perform-IsOpen now outcome c cs (describe (description c.task) r.operation) r
            (describe-state c.task r.operation ∙ h) (rw e at k) e)
    ]

attempts-IsOpen : (now : ℕ) (os : List Outcome) (r : Run) → IsOpen r → IsOpen (attempts now os r)
unfolding attempts
attempts-IsOpen now [] r h = h
attempts-IsOpen now (o ∷ os) r h =
    attempts-IsOpen now os (attempt now o r)
      (unfold attempt in next_call-IsOpen now o r.calls r refl h)

-- However the attempts of a pipeline's tasks end, as long as calls are left the operation is in
-- progress, and the last call left is the only one that completes it: an operation is completed or
-- marked as failed only when its run is over.
pub run-IsOpen :
    (p : Pipeline) (o : Operation) (now : ℕ) (outcomes : List Outcome)
    → o.state ≡ in_progress
    → IsOpen (attempts now outcomes (start p o))
unfolding start
run-IsOpen p o now outcomes h =
    attempts-IsOpen now outcomes (start p o) (inr (h, completes-calls p))

-- The operation of a deprovisioning is not canceled by its own pipeline.
abbrev pub spares : Call → Action → Bool
spares c action = elim c.task [
  | cancel_pending_provisioning ↦ same_action action Action.deprovision
  | _ ↦ true
]

abbrev pub all_spare : List Call → Action → Bool
all_spare [] action = true
all_spare (c ∷ cs) action = spares c action && all_spare cs action

abbrev pub all_return : List Call → List Outcome
all_return [] = []
all_return (c ∷ cs) = returned ∷ all_return cs

effect_keeps :
    (now : ℕ) (c : Call) (o : Operation)
    → spares c o.action ≡ true
    → ((effect now c.task o).canceled_at ≡ o.canceled_at)
      × ((effect now c.task o).action ≡ o.action)
effect_keeps now c o h = ground arith

-- The operation as the last call leaves it.
abbrev pub IsComplete : Run → Type 0
IsComplete r =
    (r.calls ≡ [])
    × (r.operation.state ≡ succeeded)
    × (r.operation.step_description ≡ "Complete!")
    × (r.alerts ≡ 0)

abbrev after : ℕ → Call → List Call → Run → Run
after now c cs r = record r {
  operation = effect now c.task (describe (description c.task) r.operation);
  calls = cs;
  retries = first_retries cs;
}

-- An attempt that returns, for an operation that is not canceled.
pub attempt-returned :
    (now : ℕ) (c : Call) (cs : List Call) (r : Run)
    → r.calls ≡ c ∷ cs
    → r.operation.canceled_at ≡ none
    → attempt now returned r ≡ after now c cs r
unfolding attempt next_call
attempt-returned now c cs r e h = ap (λ l. next_call now returned l r) e ∙ ground arith

describe_keeps :
    (t : Task) (o : Operation)
    → ((describe (description t) o).canceled_at ≡ o.canceled_at)
      × ((describe (description t) o).action ≡ o.action)
describe_keeps t o = ground arith

after_keeps :
    (now : ℕ) (c : Call) (cs : List Call) (r : Run)
    → spares c r.operation.action ≡ true
    → r.operation.canceled_at ≡ none
    → ((after now c cs r).operation.canceled_at ≡ none)
      × ((after now c cs r).operation.action ≡ r.operation.action)
after_keeps now c cs r sp h =
    let o = describe (description c.task) r.operation in
    let kept = describe_keeps c.task r.operation in
    let changed = effect_keeps now c o (ap (spares c) kept.1 ∙ sp) in
    (changed.0 ∙ kept.0 ∙ h, changed.1 ∙ kept.1)

effect_completes :
    (now : ℕ) (t : Task) (o : Operation) → is_last t ≡ true → effect now t o ≡ complete o
effect_completes now t o h = ground arith

all_return-IsComplete :
    (now : ℕ) (cs : List Call) (r : Run)
    → r.calls ≡ cs
    → completes cs ≡ true
    → all_spare cs r.operation.action ≡ true
    → r.operation.canceled_at ≡ none
    → r.alerts ≡ 0
    → IsComplete (attempts now (all_return cs) r)
unfolding attempts
all_return-IsComplete now [] r e k sp h z = cc
all_return-IsComplete now (c ∷ []) r e k sp h z =
    rw (attempt-returned now c [] r e h, effect_completes now c.task _ k) (refl, refl, refl, z)
all_return-IsComplete now (c ∷ d ∷ cs) r e k sp h z =
    let later = after now c (d ∷ cs) r in
    let here : spares c r.operation.action ≡ true = ground arith in
    let (fresh, same) = after_keeps now c (d ∷ cs) r here h in
    subst (λ x. IsComplete (attempts now (all_return (d ∷ cs)) x))
      (sym (attempt-returned now c (d ∷ cs) r e h))
      (all_return-IsComplete now (d ∷ cs) later refl (ground arith)
        (ap (all_spare (d ∷ cs)) same ∙ ground arith) fresh z)

-- If no task of a pipeline raises, and its operation is neither canceled nor canceled by the
-- pipeline itself, then after one attempt at each task the run is over, the operation has
-- succeeded with the step "Complete!", and no alert was sent.
pub run_to_completion :
    (p : Pipeline) (o : Operation) (now : ℕ)
    → o.canceled_at ≡ none
    → all_spare (calls p) o.action ≡ true
    → IsComplete (attempts now (all_return (calls p)) (start p o))
unfolding start
run_to_completion p o now h sp =
    all_return-IsComplete now (calls p) (start p o) refl (completes-calls p) sp h refl
