-- ===== src/Tasks/Balancers.antt =====
-- `DedicatedALB.load_albs` and `DedicatedALBListener.load_alb_listeners` of broker/models.py, and
-- `_load_albs` of broker/tasks/cron.py.
pub mod Twice
use external_domain_broker.Prelude.{
  ℕ, String, string_eq, ◌==◌, Bool, true, false, none, some, List, [], ◌∷◌, ◌++◌, Result, ok, err,
  Error, runtime_error, plain, any, is_empty, if◌then◌else◌,
}
use external_domain_broker.Env.{Env}
use external_domain_broker.Models.{Tag}
use external_domain_broker.Tags.{TagSource, generate_tags, create_resource_tags}
use external_domain_broker.Tasks.Work.{
  Work, Act, Service, Tables, DedicatedAlb, DedicatedAlbListener, ◌>>=◌, ◌>>◌, pure, raise, call,
  lift,
}
use external_domain_broker.Tasks.Alb.{LoadBalancers}

-- The organization, the load balancer and the listener of an entry.
pub record Entry : Type 0 where
  pub org : String
  pub alb_arn : String
  pub listener_arn : String

-- `insert … on_conflict_do_nothing(index_elements=["alb_arn"])`
unfoldable pub insert_alb : DedicatedAlb → List DedicatedAlb → List DedicatedAlb
unfolding any
insert_alb d ds = if any (λ (e : DedicatedAlb). e.alb_arn == d.alb_arn) ds then ds else ds ++ d ∷ []

-- The same with `index_elements=["listener_arn"]`
unfoldable pub insert_new_listener :
    DedicatedAlbListener → List DedicatedAlbListener → List DedicatedAlbListener
unfolding any
insert_new_listener l ls =
    if any (λ (k : DedicatedAlbListener). k.listener_arn == l.listener_arn) ls
    then ls
    else ls ++ l ∷ []

unfoldable pub org_source : String → TagSource
org_source org = record {
  instance_guid = "";
  offering_name = "";
  plan_name = "";
  organization_guid = org;
  space_guid = "";
}

abbrev pub new_alb : Entry → List Tag → DedicatedAlb
new_alb e tags = record {
  alb_arn = e.alb_arn;
  dedicated_org = e.org;
  dedicated_waf_web_acl_arn = none;
  dedicated_waf_web_acl_id = none;
  dedicated_waf_web_acl_name = none;
  dedicated_waf_associated = false;
  tags = some tags;
}

abbrev pub new_listener : Entry → DedicatedAlbListener
new_listener e = record {
  listener_arn = e.listener_arn;
  alb_arn = e.alb_arn;
  dedicated_org = e.org;
}

unfoldable pub insert_listeners : List Entry → List DedicatedAlbListener → List DedicatedAlbListener
unfolding insert_new_listener
insert_listeners [] ls = ls
insert_listeners (e ∷ es) ls = insert_listeners es (insert_new_listener (new_listener e) ls)

module _ {W : Type 0} where
  unfoldable pub add_alb : DedicatedAlb → Act W (Unit {0})
  unfolding insert_alb
  add_alb d s = (ok tt, record s { tables = record s.tables { albs = insert_alb d s.tables.albs } })

  abbrev pub with_listeners : List Entry → Work W → Result (Unit {0}) × Work W
  unfolding insert_listeners
  with_listeners es s = (
    ok tt,
    record s { tables = record s.tables { listeners = insert_listeners es s.tables.listeners } },
  )

  -- `DedicatedALBListener.load_alb_listeners`, with one commit of all rows.
  unfoldable pub load_alb_listeners : List Entry → Act W (Unit {0})
  unfolding raise with_listeners
  load_alb_listeners es s =
      (if is_empty es
          then raise
              (runtime_error (plain "load_alb_listeners: List of dedicated listeners is empty"))
          else with_listeners es)
        s

-- The text of the environment, and the load balancers.
module _ {W : Type 0} (lb : LoadBalancers W) (env : Env) where
  -- The loop of `load_albs`, which commits each row.
  unfoldable pub load_each_alb : List Entry → Act W (Unit {0})
  unfolding lift generate_tags create_resource_tags org_source add_alb pure ◌>>=◌
  load_each_alb [] = pure tt
  load_each_alb (e ∷ es) = do
    pairs ← lift (generate_tags env env.flask_env (org_source e.org))
    tags ← lift (create_resource_tags pairs)
    add_alb (new_alb e tags)
    load_each_alb es

  -- `DedicatedALB.load_albs`
  unfoldable pub load_dedicated_albs : List Entry → Act W (Unit {0})
  unfolding load_each_alb raise
  load_dedicated_albs es =
      if is_empty es
      then raise (runtime_error (plain "load_albs: List of dedicated listeners is empty"))
      else load_each_alb es

  -- The loop of `_load_albs`; the map gives each listener its organization. The process keeps the
  -- answers for its next run; here a run has none.
  unfoldable pub entries_of : List (String × String) → Act W (List Entry)
  unfolding call pure raise ◌>>=◌
  entries_of [] = pure []
  entries_of ((listener_arn, org) ∷ rest) = do
    found ← call (lb.describe_listeners listener_arn)
    elim found [
      | [] ↦ raise (runtime_error (plain "Could not find listener"))
      | x ∷ xs ↦ do
        more ← entries_of rest
        pure (record { org = org; alb_arn = x.0; listener_arn = x.1 } ∷ more)
    ]

  unfoldable pub load_albs : List (String × String) → Act W (Unit {0})
  unfolding entries_of load_dedicated_albs load_alb_listeners ◌>>=◌
  load_albs listener_map = do
    entries ← entries_of listener_map
    load_dedicated_albs entries
    load_alb_listeners entries
