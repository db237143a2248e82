-- ===== src/Worker/Deactivated.antt =====
-- What the task `deprovision` of broker/tasks/update_operations.py does to the domains.
use external_domain_broker.Prelude.{
  ℕ, String, string_eq, ◌≡◌, refl, ap, subst, ◌∙◌, true, false, Option-cases, inl, inr, some, List,
  ok, arith,
}
use external_domain_broker.Models.{Db, Operation, ServiceInstance, find, write}
use external_domain_broker.Domains.{is_live}
use external_domain_broker.Domains.Holders.{
  holds, IsExclusive, holds-write_gone, find-id, find-written,
}
use external_domain_broker.Worker.Hooks.{deprovision_task, load_operation, deactivate}

unheld :
    (a d : String) (j : ServiceInstance) (rows : List ServiceInstance)
    → is_live j ≡ false
    → find a rows ≡ some j
    → holds a d rows ≡ false
unfolding holds
unheld a d j rows gone f = ground arith

-- What the task has written.
deprovision_task-instances :
    (now id : ℕ) (db db' : Db) (o : Operation)
    → load_operation id db.operations ≡ some o
    → deprovision_task now id db ≡ ok db'
    → (i : ServiceInstance) × (find o.service_instance_id db.instances ≡ some i)
      × (db'.instances ≡ write (deactivate now i) db.instances)
unfolding deprovision_task
deprovision_task-instances now id db db' o e h =
    elim (Option-cases (find o.service_instance_id db.instances)) [
      | inl n ↦ absurd (ground arith)
      | inr (i, f) ↦ (i, f, ground arith)
    ]

-- If the task returns: the instance of the operation holds no domain any more, no instance holds a
-- domain that it did not hold before, and if no two instances had a domain in common, none have.
pub deprovision_task-holds :
    (now id : ℕ) (db db' : Db) (o : Operation)
    → load_operation id db.operations ≡ some o
    → deprovision_task now id db ≡ ok db'
    → ((d : String) → holds o.service_instance_id d db'.instances ≡ false)
      × ((a d : String) → holds a d db'.instances ≡ true → holds a d db.instances ≡ true)
      × (IsExclusive db.instances → IsExclusive db'.instances)
deprovision_task-holds now id db db' o e h =
    let (i, f, same) = deprovision_task-instances now id db db' o e h in
    let gone = deactivate now i in
    let fewer : (a d : String) → holds a d db'.instances ≡ true → holds a d db.instances ≡ true =
      λ a d k.
        holds-write_gone a d gone db.instances refl
          (subst (λ rows. holds a d rows ≡ true) same k) in
    (
      λ d.
          ap (holds o.service_instance_id d) same
          ∙ unheld o.service_instance_id d gone (write gone db.instances) refl (
              find-written o.service_instance_id gone db.instances i
                (find-id o.service_instance_id db.instances i f) f),
      fewer,
      λ x. record { one_holder = λ d a b k l. x.one_holder d a b (fewer a d k) (fewer b d l) },
    )
