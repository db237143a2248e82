-- ===== src/Tasks/Examples/Balancers.antt =====
-- Two listeners, one with two certificates and one with one.
use external_domain_broker.Prelude.{
  ℕ, suc, String, string_eq, ◌==◌, some, List, [], ◌∷◌, Result, ok, refl, sym, ap, arith, ok_same,
  true, false, err, not_implemented, ◌≡◌, if◌then◌else◌,
}
use external_domain_broker.Json.{str}
use external_domain_broker.Models.{
  ServiceInstance, InstanceType, Action, new_instance, find, Db, Session, can_update_to_type,
}
use external_domain_broker.Tasks.Work.{Work, DedicatedAlbListener}
use external_domain_broker.Tasks.Rules.{Ends}
use external_domain_broker.Tasks.Alb.{
  LoadBalancers, get_lowest_used_alb, select_dedicated_alb, count_on, is_on,
}
use external_domain_broker.Tasks.Alb.Lowest.{Describes, Lowest, get_lowest_used_alb-Ends}
use external_domain_broker.Tasks.Alb.Capacity.{Within, Selected, select_dedicated_alb-Ends}
use external_domain_broker.Tasks.Balancers.{Entry, load_alb_listeners}
use external_domain_broker.Tasks.Balancers.Twice.{IsLoaded, is_unique, load_alb_listeners-IsLoaded}
use external_domain_broker.Tasks.InstanceType.{
  IsChanged, change_to_cdn_dedicated_waf_instance_type,
  change_to_cdn_dedicated_waf_instance_type_lem,
}
use external_domain_broker.Tasks.Examples.Cdn.{settings}

abbrev certificates : String → List String
certificates arn = if arn == "l1" then "c1" ∷ "c2" ∷ [] else "c3" ∷ []

abbrev balancers : LoadBalancers ℕ
balancers = record {
  describe_listener_certificates = λ arn w. (ok (certificates arn), suc w);
  listener_certificate_pages = λ arn w. (ok [], suc w);
  describe_listeners = λ arn w. (ok (("alb", arn) ∷ []), suc w);
  describe_load_balancers = λ arn w. (ok [], suc w);
  add_listener_certificates = λ listener arn w. (ok tt, suc w);
  remove_listener_certificates = λ listener arn w. (ok tt, suc w);
}

describes : Describes balancers certificates
describes = record {
  listed = λ arn w w' r h. sym (ok_same (ap (λ (x : Result (List String) × ℕ). x.0) h));
  named = λ arn w w' x rest h.
      sym (ap first_name (ok_same (ap (λ (y : Result (List (String × String)) × ℕ). y.0) h)));
}
  where
    first_name : List (String × String) → String
    first_name [] = ""
    first_name (x ∷ xs) = x.1

abbrev row : ServiceInstance
row = record (new_instance "i1" ("a.gov" ∷ []) InstanceType.dedicated_alb) { org_id = some "org" }

abbrev other_row : ServiceInstance
other_row = record (new_instance "i2" ("b.gov" ∷ []) InstanceType.dedicated_alb) {
  org_id = some "org";
  alb_listener_arn = str "l1";
  alb_arn = str "alb";
}

abbrev listener : String → DedicatedAlbListener
listener arn = record { listener_arn = arn; alb_arn = "alb"; dedicated_org = "org" }

abbrev start : Work ℕ
start = record {
  world = 0;
  tables = record {
    instances = row ∷ other_row ∷ [];
    certificates = [];
    challenges = [];
    albs = [];
    listeners = listener "l1" ∷ listener "l2" ∷ [];
    next_certificate_id = 1;
    users = [];
    next_user_id = 1;
    next_challenge_id = 1;
  };
}

abbrev Any : Work ℕ → Type 0
Any s = Unit

any_world : (s : Work ℕ) (w : ℕ) → Any s → Any (record s { world = w })
any_world s w a = tt

get_lowest_used_alb-Ends_example :
    Ends Any
      (Lowest certificates balancers describes Any any_world ("l1" ∷ "l2" ∷ []))
      (get_lowest_used_alb balancers ("l1" ∷ "l2" ∷ []) start)
get_lowest_used_alb-Ends_example =
    get_lowest_used_alb-Ends certificates balancers describes Any any_world ("l1" ∷ "l2" ∷ []) start
      tt

within : Within balancers settings "i1" start
unfolding Within count_on is_on
within = record { each = λ l. ground arith }

select_dedicated_alb-Ends_example :
    Ends
      (Within balancers settings "i1")
      (Selected balancers settings "i1" start row)
      (select_dedicated_alb balancers settings Action.provision "i1" start)
unfolding find
select_dedicated_alb-Ends_example =
    select_dedicated_alb-Ends balancers settings "i1" certificates describes Action.provision row
      start refl within

abbrev entries : List Entry
entries =
    record { org = "org"; alb_arn = "alb"; listener_arn = "l2" }
    ∷ record { org = "org"; alb_arn = "alb"; listener_arn = "l3" }
    ∷ []

load_alb_listeners-IsLoaded_example :
    ((load_alb_listeners entries start).0 ≡ ok tt)
    × IsLoaded entries ((load_alb_listeners entries start).1)
unfolding is_unique
load_alb_listeners-IsLoaded_example = load_alb_listeners-IsLoaded entries start refl refl

-- An instance that moves from a load balancer to the CDN.
abbrev moving : ServiceInstance
moving = record row { instance_type = InstanceType.dedicated_alb_cdn_dedicated_waf_migration }

abbrev rows : Db
rows = record {
  instances = moving ∷ other_row ∷ [];
  operations = [];
  certificates = [];
  next_operation_id = 1;
  next_certificate_id = 1;
}

abbrev session : Session
session = record { committed = rows; working = rows; queued = [] }

change_to_cdn_dedicated_waf_instance_type_lem_example :
    (can_update_to_type moving.instance_type InstanceType.cdn_dedicated_waf ≡ true
      → IsChanged "i1" moving rows.instances
          (change_to_cdn_dedicated_waf_instance_type "i1" session))
    × (can_update_to_type moving.instance_type InstanceType.cdn_dedicated_waf ≡ false
        → change_to_cdn_dedicated_waf_instance_type "i1" session ≡ (err not_implemented, session))
unfolding find
change_to_cdn_dedicated_waf_instance_type_lem_example =
    change_to_cdn_dedicated_waf_instance_type_lem "i1" moving session refl refl
