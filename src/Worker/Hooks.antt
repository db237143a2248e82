-- ===== src/Worker/Hooks.antt =====
-- The hooks of broker/tasks/huey.py and the tasks of broker/tasks/update_operations.py, on the
-- tables. `args` holds the first positional argument of a task, if it has one.
use external_domain_broker.Prelude.{
  ℕ, zero, suc, String, nat_eq, string_eq, ◌==◌, Bool, true, false, not, ◌&&◌, Option, none, some,
  List, [], ◌∷◌, Result, ok, attribute_error, ◌>>=◌, if◌then◌else◌, or_raise,
}
use external_domain_broker.Models.{
  Db, Operation, ServiceInstance, succeeded, failed, deprovision, same_action, is_in_progress, find,
  write,
}

unfoldable pub load_operation : ℕ → List Operation → Option Operation
load_operation id [] = none
load_operation id (o ∷ os) = let rest = load_operation id os in if o.id == id then some o else rest

unfoldable pub save_operation : Operation → List Operation → List Operation
save_operation p [] = []
save_operation p (o ∷ os) =
    let rest = save_operation p os in if o.id == p.id then p ∷ os else o ∷ rest

abbrev pub mark_failed : Operation → Operation
mark_failed o = record o { state = failed }

-- `provision`, `update_complete`, and the first part of `deprovision`
abbrev pub complete : Operation → Operation
complete o = record o { state = succeeded; step_description = "Complete!" }

-- `pipeline_operation`: the step's description is stored before the body of the task runs.
abbrev pub describe : Option String → Operation → Operation
describe none o = o
describe (some d) o = record o { step_description = d }

-- `cancel_canceled_operations` raises `CancelExecution` for an operation that was canceled. A
-- task without positional arguments, or without its operation, is let through.
unfoldable pub is_stopped : Option ℕ → List Operation → Bool
unfolding load_operation
is_stopped none operations = false
is_stopped (some id) operations = elim (load_operation id operations) [
  | none ↦ false
  | some o ↦ elim o.canceled_at [ none ↦ false | some t ↦ true ]
]

-- `mark_operation_failed`: the tables, and the operations for which an alert was sent. The retries
-- are those left.
unfoldable pub mark_operation_failed : Option ℕ → ℕ → Db → Db × List ℕ
unfolding load_operation save_operation
mark_operation_failed args (suc n) db = (db, [])
mark_operation_failed none zero db = (db, [])
mark_operation_failed (some id) zero db = elim (load_operation id db.operations) [
  | none ↦ (db, [])
  | some o ↦ (record db { operations = save_operation (mark_failed o) db.operations }, id ∷ [])
]

unfoldable pub complete_operation : ℕ → Db → Result Db
unfolding load_operation save_operation
complete_operation id db = do
  o ← or_raise attribute_error (load_operation id db.operations)
  ok (record db { operations = save_operation (complete o) db.operations })

abbrev pub deactivate : ℕ → ServiceInstance → ServiceInstance
deactivate now i = record i { deactivated_at = some now }

-- `deprovision`
unfoldable pub deprovision_task : ℕ → ℕ → Db → Result Db
unfolding load_operation save_operation find write
deprovision_task now id db = do
  o ← or_raise attribute_error (load_operation id db.operations)
  i ← or_raise attribute_error (find o.service_instance_id db.instances)
  ok (record db {
    operations = save_operation (complete o) db.operations;
    instances = write (deactivate now i) db.instances;
  })

abbrev pub cancels : String → Operation → Bool
cancels instance_id o =
    o.service_instance_id == instance_id
    && not (same_action o.action deprovision)
    && is_in_progress o.state

unfoldable pub cancel_all : ℕ → String → List Operation → List Operation
cancel_all now instance_id [] = []
cancel_all now instance_id (o ∷ os) =
    let rest = cancel_all now instance_id os in
    if cancels instance_id o then record o { canceled_at = some now } ∷ rest else o ∷ rest

-- `cancel_pending_provisioning`
unfoldable pub cancel_pending_provisioning_task : ℕ → ℕ → Db → Result Db
unfolding load_operation cancel_all
cancel_pending_provisioning_task now id db = do
  o ← or_raise attribute_error (load_operation id db.operations)
  ok (record db { operations = cancel_all now o.service_instance_id db.operations })
