-- ===== src/Worker/Runs.antt =====
-- How huey works through the calls of a pipeline for one operation. The bodies of the tasks talk
-- to AWS, Let's Encrypt and the database; how each attempt ends is chosen from outside.
use external_domain_broker.Prelude.{
  ℕ, zero, suc, Bool, true, false, not, ◌&&◌, none, some, List, [], ◌∷◌, if◌then◌else◌,
}
use external_domain_broker.Pipelines.{
  Task, provision, update_complete, deprovision, cancel_pending_provisioning, Call, Passing,
  positional, keyword, Pipeline, calls,
}
use external_domain_broker.Models.{Operation, Action, same_action, is_in_progress}
use external_domain_broker.Worker.Steps.{description, retries_of}
use external_domain_broker.Worker.Hooks.{mark_failed, complete, describe}

-- The attempt returned, raised an exception, or raised `CancelExecution(retry=False)`.
pub data Outcome : Type 0 where
  returned raised gave_up : Outcome

-- The operation, the calls that are left, the retries of the first one, and the alerts sent.
pub record Run : Type 0 where
  pub operation : Operation
  pub calls : List Call
  pub retries : ℕ
  pub alerts : ℕ

abbrev pub first_retries : List Call → ℕ
first_retries [] = 0
first_retries (c ∷ cs) = retries_of c.task

unfoldable pub start : Pipeline → Operation → Run
unfolding calls
start p o = record { operation = o; calls = calls p; retries = first_retries (calls p); alerts = 0 }

abbrev pub is_positional : Passing → Bool
is_positional positional = true
is_positional keyword = false

abbrev pub was_canceled : Operation → Bool
was_canceled o = elim o.canceled_at [ none ↦ false | some t ↦ true ]

-- What a task that returns has done to the operation.
abbrev pub effect : ℕ → Task → Operation → Operation
effect now provision o = complete o
effect now update_complete o = complete o
effect now deprovision o = complete o
effect now cancel_pending_provisioning o =
    if not (same_action o.action Action.deprovision) && is_in_progress o.state
    then record o { canceled_at = some now }
    else o
effect now _ o = o

-- The last attempt failed: `mark_operation_failed` finds the operation by the first positional
-- argument.
abbrev pub give_up : Passing → Operation → Run → Run
give_up positional o r = record r { operation = mark_failed o; calls = []; alerts = suc r.alerts }
give_up keyword o r = record r { operation = o; calls = [] }

abbrev pub retry : ℕ → Passing → Operation → Run → Run
retry zero passing o r = give_up passing o r
retry (suc n) passing o r = record r { operation = o; retries = n }

abbrev pub perform : ℕ → Outcome → Call → List Call → Operation → Run → Run
perform now returned c cs o r = record r {
  operation = effect now c.task o;
  calls = cs;
  retries = first_retries cs;
}
perform now raised c cs o r = retry r.retries c.passing o r
perform now gave_up c cs o r = record r { operation = o; calls = [] }

unfoldable pub next_call : ℕ → Outcome → List Call → Run → Run
next_call now outcome [] r = r
next_call now outcome (c ∷ cs) r =
    if is_positional c.passing && was_canceled r.operation
    then record r { calls = [] }
    else perform now outcome c cs (describe (description c.task) r.operation) r

-- One attempt at the first call.
unfoldable pub attempt : ℕ → Outcome → Run → Run
unfolding next_call
attempt now outcome r = next_call now outcome r.calls r

unfoldable pub attempts : ℕ → List Outcome → Run → Run
unfolding attempt
attempts now [] r = r
attempts now (o ∷ os) r = attempts now os (attempt now o r)
