-- ===== src/Worker/Failures.antt =====
-- What becomes of an operation whose task fails for good, and of one that was canceled.
use mathlib.Core.Path.{subst}
use external_domain_broker.Prelude.{
  ℕ, zero, suc, ◌+◌, ◌≡◌, refl, ap, ◌∙◌, String, ◌&&◌, not, sym, Bool, true, false, Option, none,
  some, List, [], ◌∷◌, arith,
}
use external_domain_broker.Pipelines.{Call, Passing, positional, keyword, Pipeline, calls}
use external_domain_broker.Models.{Operation}
use external_domain_broker.Worker.Steps.{description}
use external_domain_broker.Worker.Hooks.{describe, mark_failed}
use external_domain_broker.Worker.Runs.{
  Run, Outcome, raised, attempt, attempts, next_call, retry, give_up, is_positional, was_canceled,
}

abbrev pub all_raise : ℕ → List Outcome
all_raise zero = []
all_raise (suc n) = raised ∷ all_raise n

describe_twice : (d : Option String) (o : Operation) → describe d (describe d o) ≡ describe d o
describe_twice none o = refl
describe_twice (some d) o = refl

describe-canceled :
    (d : Option String) (o : Operation) → was_canceled (describe d o) ≡ was_canceled o
describe-canceled none o = refl
describe-canceled (some d) o = refl

-- The operation after the last failure of a call, and the alerts of that failure.
abbrev pub last_state : Passing → Operation → Operation
last_state positional o = mark_failed o
last_state keyword o = o

abbrev pub last_alerts : Passing → ℕ
last_alerts positional = 1
last_alerts keyword = 0

abbrev pub GivenUp : Call → Operation → ℕ → Run → Type 0
GivenUp c o alerts r =
    (r.calls ≡ [])
    × (r.operation ≡ last_state c.passing (describe (description c.task) o))
    × (r.alerts ≡ alerts + last_alerts c.passing)

attempt-raised :
    (now : ℕ) (c : Call) (cs : List Call) (r : Run)
    → r.calls ≡ c ∷ cs
    → (is_positional c.passing && was_canceled r.operation) ≡ false
    → attempt now raised r ≡ retry r.retries c.passing (describe (description c.task) r.operation) r
unfolding attempt next_call
attempt-raised now c cs r e h = ap (λ l. next_call now raised l r) e ∙ rw h

give_up-GivenUp :
    (c : Call) (o : Operation) (r : Run)
    → GivenUp c o r.alerts (give_up c.passing (describe (description c.task) o) r)
give_up-GivenUp c o r = by_passing c.passing refl
  where
    by_passing :
        (p : Passing)
        → c.passing ≡ p
        → GivenUp c o r.alerts (give_up c.passing (describe (description c.task) o) r)
    by_passing positional e = rw e (refl, refl, omega arith)
    by_passing keyword e = rw e (refl, refl, omega arith)

raise_all :
    (now n : ℕ) (c : Call) (cs : List Call) (r : Run)
    → r.retries ≡ n
    → r.calls ≡ c ∷ cs
    → (is_positional c.passing && was_canceled r.operation) ≡ false
    → GivenUp c r.operation r.alerts (attempts now (all_raise (suc n)) r)
unfolding attempts
raise_all now zero c cs r n e h =
    subst (λ x. GivenUp c r.operation r.alerts x) (sym (attempt-raised now c cs r e h))
      (subst
        (λ m.
          GivenUp c r.operation r.alerts
            (retry m c.passing (describe (description c.task) r.operation) r))
        (sym n) (give_up-GivenUp c r.operation r))
raise_all now (suc k) c cs r n e h =
    let o = describe (description c.task) r.operation in
    let next : Run = record r { operation = o; retries = k } in
    let ih = raise_all now k c cs next refl e (
      ap (λ b. is_positional c.passing && b) (describe-canceled (description c.task) r.operation)
      ∙ h) in
    subst (λ x. GivenUp c r.operation r.alerts (attempts now (all_raise (suc k)) x))
      (sym (attempt-raised now c cs r e h))
      (subst
        (λ m.
          GivenUp c r.operation r.alerts (attempts now (all_raise (suc k)) (retry m c.passing o r)))
        (sym n)
        (
          ih.0,
          ih.1 ∙ ap (last_state c.passing) (describe_twice (description c.task) r.operation),
          ih.2,
        ))

-- A task that raises at its first attempt and at each of its retries ends the run. If its call
-- passes the operation's id by position, the operation is marked as failed and one alert is sent;
-- if it passes the id as a keyword argument, the operation keeps its state and no alert is sent.
pub failed_for_good :
    (now : ℕ) (c : Call) (cs : List Call) (r : Run)
    → r.calls ≡ c ∷ cs
    → (is_positional c.passing && was_canceled r.operation) ≡ false
    → GivenUp c r.operation r.alerts (attempts now (all_raise (suc r.retries)) r)
failed_for_good now c cs r e h = raise_all now r.retries c cs r refl e h

abbrev pub all_positional : List Call → Bool
all_positional [] = true
all_positional (c ∷ cs) = is_positional c.passing && all_positional cs

-- The deprovisioning of the two CDN plans.
abbrev pub deletes_distribution : Pipeline → Bool
deletes_distribution Pipeline.cdn_deprovision = true
deletes_distribution Pipeline.cdn_dedicated_waf_deprovision = true
deletes_distribution _ = false

-- In every pipeline but those that deprovision the two CDN plans, every call passes the id of the
-- operation by position; in those two, some call does not.
pub all_positional-calls : (p : Pipeline) → all_positional (calls p) ≡ not (deletes_distribution p)
unfolding calls
all_positional-calls Pipeline.cdn_deprovision = refl
all_positional-calls _ = refl

-- The run at a moment at which its operation is canceled.
abbrev pub canceled : ℕ → Run → Run
canceled t r = record r { operation = record r.operation { canceled_at = some t } }

-- Nothing is left to do, or the operation is canceled and each call is stopped by that.
abbrev HasStopped : Operation → ℕ → Run → Type 0
HasStopped o alerts r =
    (r.operation ≡ o)
    × (r.alerts ≡ alerts)
    × (was_canceled o ≡ true)
    × (all_positional r.calls ≡ true)
