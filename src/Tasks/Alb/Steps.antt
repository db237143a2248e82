-- ===== src/Tasks/Alb/Steps.antt =====
-- The tasks of broker/tasks/alb.py.
use external_domain_broker.Prelude.{
  ℕ, String, string_eq, ◌==◌, nat_eq, Bool, true, not, ◌&&◌, Option, none, some, List, [], ◌∷◌,
  Result, ok, err, runtime_error, attribute_error, plain, filter, map, is_empty, if◌then◌else◌, any,
}
use external_domain_broker.Json.{Json, null, str, is_str, truthy, is_null}
use external_domain_broker.Text.Order.{sorted}
use external_domain_broker.Models.{ServiceInstance, Certificate, Action, same_action}
use external_domain_broker.Tasks.Work.{
  Act, Tables, DedicatedAlbListener, ◌>>=◌, ◌>>◌, pure, raise, lift, call, load, save, tables_of,
  new_certificate_of, current_certificate_of, find_certificate,
}
use external_domain_broker.Tasks.Settings.{Settings}
use external_domain_broker.Tasks.Polling.{poll}
use external_domain_broker.Tasks.Alb.Listeners.{
  LoadBalancers, first_of, get_lowest_used_alb, potential_listeners, save_listener,
}

-- The certificates of the instance but the current one. A comparison with `None` is `IS NOT NULL`.
unfoldable pub previous_certificates : ServiceInstance → List Certificate → List Certificate
unfolding filter
previous_certificates i = filter λ (c : Certificate).
    c.service_instance_id == i.id
    && elim i.current_certificate_id [ none ↦ true | some id ↦ not (c.id == id) ]

abbrev arn_of : Option Certificate → Result Json
arn_of none = err attribute_error
arn_of (some c) = ok c.iam_server_certificate_arn

abbrev head_of : List Certificate → Option Certificate
head_of [] = none
head_of (c ∷ cs) = some c

abbrev is_provision : Action → Bool
is_provision = same_action Action.provision

abbrev pub remembered : ServiceInstance → ServiceInstance
remembered i = record i {
  previous_alb_listener_arn = i.alb_listener_arn;
  previous_alb_arn = i.alb_arn;
}

abbrev forgotten : ServiceInstance → ServiceInstance
forgotten i = record i { previous_alb_arn = null; previous_alb_listener_arn = null }

unfoldable pub placed : String → String → ServiceInstance → ServiceInstance
placed alb_arn listener_arn i = record i {
  alb_arn = str alb_arn;
  alb_listener_arn = str listener_arn;
}

abbrev org_of : Option String → String → String
org_of none old = old
org_of (some org) old = org

abbrev pub listener_arns_of : List DedicatedAlbListener → List String
listener_arns_of ls = map (λ (l : DedicatedAlbListener). l.listener_arn) ls

module _ {W : Type 0} (lb : LoadBalancers W) (settings : Settings) where
  -- The end of `get_lowest_dedicated_alb`, with the ARNs that were chosen.
  unfoldable pub place :
      ServiceInstance → List DedicatedAlbListener → String × String → Act W (Unit {0})
  unfolding filter lift save save_listener placed ◌>>=◌
  place i potential (alb_arn, listener_arn) = do
    selected ←
        lift (
          first_of
            (filter (λ (l : DedicatedAlbListener). l.listener_arn == listener_arn) potential))
    save (placed alb_arn listener_arn i)
    save_listener (record selected {
      alb_arn = alb_arn;
      dedicated_org = org_of i.org_id selected.dedicated_org;
    })

  unfoldable pub get_lowest_dedicated_alb : ServiceInstance → Act W (Unit {0})
  unfolding tables_of potential_listeners sorted get_lowest_used_alb raise place ◌>>=◌
  get_lowest_dedicated_alb i = do
    t ← tables_of
    let potential = potential_listeners settings.max_certs_per_alb i t
    if is_empty potential
        then raise (runtime_error (plain "Could not find potential listeners for org"))
        else (do
          arns ← get_lowest_used_alb lb (sorted (listener_arns_of potential))
          place i potential arns)

  unfoldable pub select_dedicated_alb : Action → String → Act W (Unit {0})
  unfolding load get_lowest_dedicated_alb pure ◌>>=◌
  select_dedicated_alb action id = do
    i ← load id
    if truthy i.alb_arn && is_provision action
        then pure tt
        else get_lowest_dedicated_alb (remembered i)

  unfoldable pub select_alb : Action → String → Act W (Unit {0})
  unfolding load get_lowest_used_alb save placed pure ◌>>=◌
  select_alb action id = do
    i ← load id
    if truthy i.alb_arn && is_provision action then pure tt else (do
      (alb_arn, listener_arn) ← get_lowest_used_alb lb settings.alb_listener_arns
      save (placed alb_arn listener_arn (remembered i)))

  unfoldable pub add_certificate_to_alb : String → Act W (Unit {0})
  unfolding load new_certificate_of call lift save ◌>>=◌
  add_certificate_to_alb id = do
    i ← load id
    certificate ← new_certificate_of i
    call (lb.add_listener_certificates i.alb_listener_arn certificate.iam_server_certificate_arn)
    found ← call (lb.describe_load_balancers i.alb_arn)
    (name, zone) ← lift (first_of found)
    save (record i {
      domain_internal = name;
      route53_alias_hosted_zone = zone;
      current_certificate_id = some certificate.id;
      new_certificate_id = none;
    })

  -- `if listener is not None: alb.remove_listener_certificates(…)`
  abbrev remove_if : Json → Result Json → Act W (Unit {0})
  unfolding pure lift call ◌>>=◌
  remove_if listener arn =
      if is_null listener
      then pure tt
      else (do a ← lift arn; call (lb.remove_listener_certificates listener a))

  unfoldable pub remove_certificate_from_alb : String → Act W (Unit {0})
  unfolding load tables_of current_certificate_of call pure save ◌>>=◌
  remove_certificate_from_alb id = do
    i ← load id
    if is_null i.alb_listener_arn then save i else (do
      certificate ← current_certificate_of i
      call (
          lb.remove_listener_certificates i.alb_listener_arn certificate.iam_server_certificate_arn)
      save i)

  -- One round of the loop of `_wait_for_certificate_removal`.
  unfoldable pub removed_yet : Json → Json → Act W Bool
  unfolding call pure any ◌>>=◌
  removed_yet listener arn = do
    pages ← call (lb.listener_certificate_pages listener)
    pure (not (any (λ (page : List String). any (λ (a : String). is_str a arn) page) pages))

  unfoldable pub wait_for_certificate_removal : Json → Json → Act W (Unit {0})
  unfolding poll removed_yet pure raise ◌>>=◌
  wait_for_certificate_removal listener arn = do
    removed ← poll settings.aws_poll_max_attempts (removed_yet listener arn)
    if removed
        then pure tt
        else raise (runtime_error (plain "Could not verify removal of certificate"))

  unfoldable pub remove_certificate_from_previous_alb : String → Act W (Unit {0})
  unfolding load tables_of previous_certificates lift call pure wait_for_certificate_removal save
      ◌>>=◌
  remove_certificate_from_previous_alb id = do
    i ← load id
    t ← tables_of
    let arn = arn_of (head_of (previous_certificates i t.certificates))
    remove_if i.previous_alb_listener_arn arn
    a ← lift arn
    wait_for_certificate_removal i.previous_alb_listener_arn a
    save (forgotten i)

  -- The certificate with an id that a column holds, or `None`.
  abbrev maybe_certificate : Option ℕ → Tables → Option Certificate
  unfolding find_certificate
  maybe_certificate none t = none
  maybe_certificate (some id) t = find_certificate id t.certificates

  unfoldable pub remove_alb_certificate_during_update_to_cdn_dedicated_waf :
      String → Act W (Unit {0})
  unfolding load tables_of maybe_certificate lift call pure save ◌>>=◌
  remove_alb_certificate_during_update_to_cdn_dedicated_waf id = do
    i ← load id
    t ← tables_of
    remove_if i.alb_listener_arn (arn_of (maybe_certificate i.alb_certificate_id t))
    save (forgotten (record i { alb_certificate_id = none }))

  unfoldable pub remove_certificate_from_previous_alb_during_update_to_dedicated :
      String → Act W (Unit {0})
  unfolding load tables_of maybe_certificate lift call pure save ◌>>=◌
  remove_certificate_from_previous_alb_during_update_to_dedicated id = do
    i ← load id
    t ← tables_of
    remove_if i.previous_alb_listener_arn (arn_of (maybe_certificate i.current_certificate_id t))
    save (forgotten i)

  unfoldable pub store_alb_certificate : String → Act W (Unit {0})
  unfolding load save ◌>>=◌
  store_alb_certificate id = do
    i ← load id
    save (record i { alb_certificate_id = i.current_certificate_id })
