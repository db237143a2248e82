-- ===== src/Tasks/Route53.antt =====
-- broker/tasks/route53.py
use Prim.Native.String
use external_domain_broker.Prelude.{
  String, string_eq, ◌==◌, not, List, [], ◌∷◌, ◌++◌, elem, filter, if◌then◌else◌, nat_eq,
}
use external_domain_broker.Json.{Json}
use external_domain_broker.Models.{ServiceInstance, Tag, Certificate}
use external_domain_broker.Tasks.Work.{
  Act, Service, Challenge, new_certificate_of, current_certificate_of, tables_of, challenges_of,
  certificates_of, ◌>>=◌, ◌>>◌, pure, call, tried, load, save,
}

pub data ChangeAction : Type 0 where
  upsert delete : ChangeAction

-- A resource record set: a text record, or an alias of type A or AAAA.
pub data RecordSet : Type 0 where
  txt : (name contents : String) → RecordSet
  alias_a alias_aaaa : (name : String) (target zone : Json) → RecordSet

-- The calls of the Route 53 client that the tasks make.
pub record Route53 (W : Type 0) : Type 0 where
  -- one batch of changes; the id of the change
  pub change_records : List (ChangeAction × RecordSet) → Service W String
  -- the waiter `resource_record_sets_changed`
  pub wait_changed : String → Service W (Unit {0})
  -- with the caller reference and the domain; the id of the health check
  pub create_health_check : String → String → Service W String
  pub tag_health_check : String → List Tag → Service W (Unit {0})
  pub delete_health_check : String → Service W (Unit {0})

module _ {W : Type 0} (r : Route53 W) (root : String) where
  -- `f"{domain}.{config.DNS_ROOT_DOMAIN}"`
  abbrev pub record_name : String → String
  record_name domain = String.◌++◌ domain (String.◌++◌ "." root)

  abbrev quoted : String → String
  quoted contents = String.◌++◌ "\"" (String.◌++◌ contents "\"")

  abbrev pub txt_record : Challenge → RecordSet
  txt_record c = txt (record_name c.validation_domain) (quoted c.validation_contents)

  abbrev pub alias_changes :
      ChangeAction → String → ServiceInstance → List (ChangeAction × RecordSet)
  alias_changes action domain i =
      (action, alias_a (record_name domain) i.domain_internal i.route53_alias_hosted_zone)
      ∷ (action, alias_aaaa (record_name domain) i.domain_internal i.route53_alias_hosted_zone)
      ∷ []

  -- A change that is made, and whose id is stored with the instance.
  abbrev tracked : List (ChangeAction × RecordSet) → ServiceInstance → Act W ServiceInstance
  tracked batch i = do
    change_id ← call (r.change_records batch)
    let changed = record i { route53_change_ids = i.route53_change_ids ++ change_id ∷ [] }
    save changed
    pure changed

  -- The loop of `create_TXT_records`.
  unfoldable pub create_each_txt : List Challenge → ServiceInstance → Act W (Unit {0})
  unfolding call save pure ◌>>=◌
  create_each_txt [] i = pure tt
  create_each_txt (c ∷ cs) i = do
    changed ← tracked ((upsert, txt_record c) ∷ []) i
    create_each_txt cs changed

  unfoldable pub create_txt_records : String → Act W (Unit {0})
  unfolding load new_certificate_of tables_of challenges_of filter create_each_txt ◌>>=◌
  create_txt_records id = do
    i ← load id
    certificate ← new_certificate_of i
    t ← tables_of
    create_each_txt
        (filter (λ (c : Challenge). not c.answered) (challenges_of certificate.id t.challenges)) i

  unfoldable pub create_each_alias : List String → ServiceInstance → Act W (Unit {0})
  unfolding call save pure ◌>>=◌
  create_each_alias [] i = pure tt
  create_each_alias (d ∷ ds) i = do
    changed ← tracked (alias_changes upsert d i) i
    create_each_alias ds changed

  unfoldable pub create_alias_records : String → Act W (Unit {0})
  unfolding load create_each_alias ◌>>=◌
  create_alias_records id = do i ← load id; create_each_alias i.domain_names i

  -- `try: … except: pass`
  unfoldable pub delete_records : List (ChangeAction × RecordSet) → Act W (Unit {0})
  unfolding tried call pure ◌>>=◌
  delete_records batch = do ignored ← tried (call (r.change_records batch)); pure tt

  -- `_delete_TXT_record`
  unfoldable pub delete_txt_record : Challenge → Act W (Unit {0})
  unfolding delete_records
  delete_txt_record c = delete_records ((delete, txt_record c) ∷ [])

  -- `_delete_ALIAS_record`
  unfoldable pub delete_alias_record : String → ServiceInstance → Act W (Unit {0})
  unfolding delete_records
  delete_alias_record domain i = delete_records (alias_changes delete domain i)

  unfoldable pub delete_each_txt : List Challenge → Act W (Unit {0})
  unfolding delete_txt_record pure ◌>>=◌
  delete_each_txt [] = pure tt
  delete_each_txt (c ∷ cs) = do delete_txt_record c; delete_each_txt cs

  unfoldable pub delete_txt_of_each : List Certificate → Act W (Unit {0})
  unfolding delete_each_txt tables_of challenges_of pure ◌>>=◌
  delete_txt_of_each [] = pure tt
  delete_txt_of_each (c ∷ cs) = do
    t ← tables_of
    delete_each_txt (challenges_of c.id t.challenges)
    delete_txt_of_each cs

  unfoldable pub remove_txt_records : String → Act W (Unit {0})
  unfolding load tables_of certificates_of delete_txt_of_each ◌>>=◌
  remove_txt_records id = do
    i ← load id
    t ← tables_of
    delete_txt_of_each (certificates_of i.id t.certificates)

  unfoldable pub delete_each_old : List Challenge → ServiceInstance → Act W (Unit {0})
  unfolding delete_txt_record delete_alias_record pure ◌>>=◌
  delete_each_old [] i = pure tt
  delete_each_old (c ∷ cs) i = do
    delete_txt_record c
    delete_alias_record c.domain i
    delete_each_old cs i

  unfoldable pub remove_old_dns_records : String → Act W (Unit {0})
  unfolding load current_certificate_of tables_of challenges_of filter delete_each_old ◌>>=◌
  remove_old_dns_records id = do
    i ← load id
    certificate ← current_certificate_of i
    t ← tables_of
    delete_each_old
        (filter (λ (c : Challenge). not (elem c.domain i.domain_names))
          (challenges_of certificate.id t.challenges))
        i

  unfoldable pub delete_each_alias : List String → ServiceInstance → Act W (Unit {0})
  unfolding delete_alias_record pure ◌>>=◌
  delete_each_alias [] i = pure tt
  delete_each_alias (d ∷ ds) i = do delete_alias_record d i; delete_each_alias ds i

  unfoldable pub remove_alias_records : String → Act W (Unit {0})
  unfolding load delete_each_alias ◌>>=◌
  remove_alias_records id = do i ← load id; delete_each_alias i.domain_names i

  -- `xs.remove(x)`: the first that is equal
  unfoldable pub removed : String → List String → List String
  removed x [] = []
  removed x (y ∷ ys) = let rest = removed x ys in if y == x then ys else y ∷ rest

  -- The loop of `wait_for_changes`, over a copy of the list.
  unfoldable pub wait_for_each : List String → ServiceInstance → Act W (Unit {0})
  unfolding removed call save pure ◌>>=◌
  wait_for_each [] i = pure tt
  wait_for_each (c ∷ cs) i = do
    call (r.wait_changed c)
    let changed = record i { route53_change_ids = removed c i.route53_change_ids }
    save changed
    wait_for_each cs changed

  unfoldable pub wait_for_changes : String → Act W (Unit {0})
  unfolding load wait_for_each ◌>>=◌
  wait_for_changes id = do i ← load id; wait_for_each i.route53_change_ids i
