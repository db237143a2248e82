-- ===== src/Models/Store.antt =====
-- The database session of a request. The session works on its own copy of the tables; `commit`
-- makes it the committed one, and the end of a request drops what was not committed. An object
-- that a handler has loaded is a value; `put_instance` is the write of its row at the next commit.
use external_domain_broker.Prelude.{
  ℕ, suc, String, string_eq, ◌==◌, Bool, true, false, Option, none, some, List, [], ◌∷◌, ◌++◌,
  Result, ok, err, Error, integrity_error, if◌then◌else◌,
}
use external_domain_broker.Models.Rows.{
  ServiceInstance, Certificate, Operation, Action, in_progress, Db,
}
use external_domain_broker.Pipelines.{Job}

pub record Session : Type 0 where
  pub committed : Db
  pub working : Db
  pub queued : List Job

abbrev pub Exec : Type 0 → Type 0
Exec A = Session → Result A × Session

abbrev pub proceed : {A B : Type 0} → Result A → (A → Exec B) → Exec B
proceed (ok a) f s = f a s
proceed (err e) f s = (err e, s)

infixl 5 ◌>>=◌ ◌>>◌
unfoldable pub ◌>>=◌ : {A B : Type 0} → Exec A → (A → Exec B) → Exec B
◌>>=◌ m f s = let (r, s') = m s in proceed r f s'

abbrev pub ◌>>◌ : {B : Type 0} → Exec (Unit {0}) → Exec B → Exec B
m >> n = m >>= λ _. n

unfoldable pub pure : {A : Type 0} → A → Exec A
pure a s = (ok a, s)

unfoldable pub raise : {A : Type 0} → Error → Exec A
raise e s = (err e, s)

unfoldable pub lift : {A : Type 0} → Result A → Exec A
lift r s = (r, s)

-- `if not test: raise e`
unfoldable pub require : Bool → Error → Exec (Unit {0})
require true e s = (ok tt, s)
require false e s = (err e, s)

unfoldable pub find : String → List ServiceInstance → Option ServiceInstance
find id [] = none
find id (i ∷ is) = if i.id == id then some i else find id is

unfoldable pub write : ServiceInstance → List ServiceInstance → List ServiceInstance
write j [] = []
write j (i ∷ is) = let rest = write j is in if i.id == j.id then j ∷ is else i ∷ rest

-- `db.session.get(ServiceInstance, id)`
unfoldable pub get_instance : String → Exec (Option ServiceInstance)
unfolding find
get_instance id s = (ok (find id s.working.instances), s)

unfoldable pub put_instance : ServiceInstance → Exec (Unit {0})
unfolding write
put_instance i s =
    (ok tt, record s { working = record s.working { instances = write i s.working.instances } })

-- `db.session.add(instance)` of a new object: the key must be new.
unfoldable pub insert_instance : ServiceInstance → Exec (Unit {0})
unfolding find
insert_instance i s = elim (find i.id s.working.instances) [
  | some old ↦ (err integrity_error, s)
  | none ↦
      (ok tt, record s { working = record s.working { instances = s.working.instances ++ i ∷ [] } })
]

abbrev pub new_operation : ℕ → String → Action → Operation
new_operation id instance_id action = record {
  id = id;
  service_instance_id = instance_id;
  state = in_progress;
  action = action;
  canceled_at = none;
  step_description = "Queuing tasks";
  updated_at = none;
}

-- A new operation on an instance, under the next key.
unfoldable pub add_operation : String → Action → Exec ℕ
add_operation instance_id action s = (
  ok s.working.next_operation_id,
  record s {
    working = record s.working {
      operations =
          s.working.operations ++ new_operation s.working.next_operation_id instance_id action ∷ [];
      next_operation_id = suc s.working.next_operation_id;
    };
  },
)

unfoldable pub add_certificate : (ℕ → Certificate) → Exec ℕ
add_certificate make s = (
  ok s.working.next_certificate_id,
  record s {
    working = record s.working {
      certificates = s.working.certificates ++ make s.working.next_certificate_id ∷ [];
      next_certificate_id = suc s.working.next_certificate_id;
    };
  },
)

unfoldable pub commit : Exec (Unit {0})
commit s = (ok tt, record s { committed = s.working })

unfoldable pub end_request : Session → Session
end_request s = record s { working = s.committed }

-- A whole request: the handler on a fresh session, and the end of the session.
abbrev pub request : {A : Type 0} → Exec A → Session → Result A × Session
request m s = let (r, s') = m (end_request s) in (r, end_request s')
