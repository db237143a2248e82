-- ===== src/Tasks/Alb/Listeners.antt =====
-- The choice of a listener, in broker/tasks/alb.py.
use external_domain_broker.Prelude.{
  ℕ, suc, String, string_eq, ◌==◌, Bool, false, ◌&&◌, Option, none, some, List, [], ◌∷◌, Result, ok,
  err, runtime_error, plain, index_error, filter, length, is_empty, leb, ltb, if◌then◌else◌,
}
use external_domain_broker.Json.{Json, is_str}
use external_domain_broker.Models.{ServiceInstance, InstanceType, same_type}
use external_domain_broker.Domains.{is_live}
use external_domain_broker.Tasks.Work.{
  Act, Service, Tables, DedicatedAlbListener, ◌>>=◌, pure, raise, lift, call,
}

-- The calls of the client for load balancers.
pub record LoadBalancers (W : Type 0) : Type 0 where
  -- the ARNs of the certificates of a listener
  pub describe_listener_certificates : String → Service W (List String)
  -- the same with a paginator; the listener is what a column holds
  pub listener_certificate_pages : Json → Service W (List (List String))
  -- the ARNs of the load balancer and of the listener, of each listener that is found
  pub describe_listeners : String → Service W (List (String × String))
  -- the DNS name and the hosted zone, of each load balancer that is found
  pub describe_load_balancers : Json → Service W (List (Json × Json))
  -- with the ARNs of a listener and of a certificate
  pub add_listener_certificates : Json → Json → Service W (Unit {0})
  pub remove_listener_certificates : Json → Json → Service W (Unit {0})

abbrev pub first_of {ℓ} : {A : Type ℓ} → List A → Result A
first_of [] = err index_error
first_of (x ∷ xs) = ok x

-- `https_listeners.sort(key=lambda x: len(x["certificates"]))`, which keeps the order of equals.
unfoldable pub insert_listener :
    String × List String → List (String × List String) → List (String × List String)
insert_listener x [] = x ∷ []
insert_listener x (y ∷ ys) =
    let rest = insert_listener x ys in
    if leb (length (x.1)) (length (y.1)) then x ∷ y ∷ ys else y ∷ rest

unfoldable pub sort_listeners : List (String × List String) → List (String × List String)
unfolding insert_listener
sort_listeners [] = []
sort_listeners (x ∷ xs) = insert_listener x (sort_listeners xs)

-- The instance is active, dedicated, and on the listener.
unfoldable pub is_on : String → ServiceInstance → Bool
is_on listener_arn i =
    same_type i.instance_type InstanceType.dedicated_alb
    && is_live i
    && is_str listener_arn i.alb_listener_arn

unfoldable pub count_on : String → List ServiceInstance → ℕ
unfolding is_on
count_on listener_arn [] = 0
count_on listener_arn (i ∷ rows) =
    let rest = count_on listener_arn rows in if is_on listener_arn i then suc rest else rest

abbrev pub is_org : Option String → String → Bool
is_org none org = false
is_org (some o) org = org == o

-- `get_potential_listeners_for_dedicated_instance`
unfoldable pub potential_listeners : ℕ → ServiceInstance → Tables → List DedicatedAlbListener
unfolding filter count_on
potential_listeners max i t =
    filter
      (λ (l : DedicatedAlbListener).
        is_org i.org_id l.dedicated_org && ltb (count_on l.listener_arn t.instances) max)
      t.listeners

-- The row of a listener, written back.
unfoldable pub write_listener :
    DedicatedAlbListener → List DedicatedAlbListener → List DedicatedAlbListener
write_listener l [] = []
write_listener l (k ∷ ks) =
    let rest = write_listener l ks in if k.listener_arn == l.listener_arn then l ∷ ks else k ∷ rest

module _ {W : Type 0} where
  unfoldable pub save_listener : DedicatedAlbListener → Act W (Unit {0})
  unfolding write_listener
  save_listener l s = (
    ok tt,
    record s { tables = record s.tables { listeners = write_listener l s.tables.listeners } },
  )

module _ {W : Type 0} (lb : LoadBalancers W) where
  -- The loop of `get_lowest_used_alb`.
  unfoldable pub describe_each : List String → Act W (List (String × List String))
  unfolding call pure ◌>>=◌
  describe_each [] = pure []
  describe_each (a ∷ arns) = do
    certificates ← call (lb.describe_listener_certificates a)
    rest ← describe_each arns
    pure ((a, certificates) ∷ rest)

  unfoldable pub get_lowest_used_alb : List String → Act W (String × String)
  unfolding describe_each sort_listeners call lift raise ◌>>=◌
  get_lowest_used_alb arns = do
    listeners ← describe_each arns
    if is_empty listeners
        then raise (runtime_error (plain "Could not find any HTTPS listeners"))
        else (do
          selected ← lift (first_of (sort_listeners listeners))
          found ← call (lb.describe_listeners (selected.0))
          lift (first_of found))
