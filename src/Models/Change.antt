-- ===== src/Models/Change.antt =====
-- `change_instance_type` and `has_active_operations` of broker/models.py
use external_domain_broker.Prelude.{
  String, string_eq, ◌==◌, Bool, ◌&&◌, Option, none, some, List, [], ◌∷◌, Result, ok, err,
  not_implemented, attribute_error, if◌then◌else◌, any,
}
use external_domain_broker.Models.Rows.{ServiceInstance, InstanceType, Operation}
use external_domain_broker.Models.Types.{same_type, can_update_to_type, is_active}
use external_domain_broker.Models.Store.{Exec, find}

-- `UPDATE service_instance SET instance_type = … WHERE id = …`
unfoldable pub set_type : String → InstanceType → List ServiceInstance → List ServiceInstance
set_type id kind [] = []
set_type id kind (i ∷ is) =
    let rest = set_type id kind is in
    if i.id == id then record i { instance_type = kind } ∷ rest else i ∷ rest

abbrev pub reload : Option ServiceInstance → Result ServiceInstance
reload none = err attribute_error
reload (some i) = ok i

-- The update of the row is followed by `expunge_all` and a fresh load, so what the handler had
-- changed on the object, and not committed, is lost.
unfoldable pub change_instance_type : ServiceInstance → InstanceType → Exec ServiceInstance
unfolding set_type find
change_instance_type i kind s =
    if same_type i.instance_type kind
    then (ok i, s)
    else if can_update_to_type i.instance_type kind
    then (let rows = set_type i.id kind s.working.instances in
        (reload (find i.id rows), record s { working = record s.working { instances = rows } }))
    else (err not_implemented, s)

unfoldable pub has_active_operations : String → List Operation → Bool
unfolding any
has_active_operations id = any (λ (o : Operation). o.service_instance_id == id && is_active o)
