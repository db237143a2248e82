-- ===== src/Api/Poll.antt =====
-- `last_operation` of broker/api.py
use external_domain_broker.Prelude.{
  ℕ, String, string_eq, nat_eq, ◌==◌, ◌&&◌, Option, none, some, List, [], ◌∷◌, bad_request, plain,
  instance_does_not_exist, if◌then◌else◌, value_error,
}
use external_domain_broker.Models.{
  ServiceInstance, Operation, OperationState, Exec, pure, raise, ◌>>=◌, get_instance,
}
use external_domain_broker.Api.Deprovision.{found}

-- `instance.operations.filter_by(id=…).first()`
unfoldable pub find_operation : String → ℕ → List Operation → Option Operation
find_operation instance_id id [] = none
find_operation instance_id id (o ∷ os) =
    let rest = find_operation instance_id id os in
    if o.service_instance_id == instance_id && o.id == id then some o else rest

-- The operation data of a poll: absent, a number, or a text that `int` refuses.
pub data OperationData : Type 0 where
  missing : OperationData
  number : ℕ → OperationData
  garbage : OperationData

reply_to : Option Operation → Exec (OperationState × String)
reply_to none = raise (bad_request (plain "Invalid operation id"))
reply_to (some o) = pure (o.state, o.step_description)

poll : OperationData → ServiceInstance → Exec (OperationState × String)
unfolding find_operation reply_to
poll missing i s = raise (bad_request (plain "Missing operation ID")) s
poll garbage i s = raise value_error s
poll (number id) i s = reply_to (find_operation i.id id s.working.operations) s

unfoldable pub last_operation : String → OperationData → Exec (OperationState × String)
unfolding poll reply_to get_instance raise pure ◌>>=◌
last_operation instance_id operation_data = do
  instance_ ← get_instance instance_id
  found instance_ (poll operation_data) (raise instance_does_not_exist)
