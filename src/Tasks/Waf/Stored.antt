-- ===== src/Tasks/Waf/Stored.antt =====
-- A web ACL that is there already under the name of an instance, in broker/tasks/waf.py.
use external_domain_broker.Prelude.{
  String, Bool, true, false, not, Option, none, some, Result, ok, err, aws_error, runtime_error,
  plain, ◌≡◌, ap, ◌∙◌, arith, if◌then◌else◌,
}
use external_domain_broker.Models.{ServiceInstance, find, is_cdn_dedicated_waf_instance}
use external_domain_broker.Tasks.Work.{
  Work, Act, ◌>>=◌, ◌>>◌, proceed, pure, raise, call, tried, has_code, is_set, save,
}
use external_domain_broker.Tasks.Rules.{load_found}
use external_domain_broker.Tasks.Settings.{Settings}
use external_domain_broker.Tasks.Sns.{text_in}
use external_domain_broker.Tasks.Waf.{
  Waf, Summary, cloudfront, acl_of, with_acl, summarized, is_whole, cdn_acl_name, cdn_rules,
  made_acl, create_instance_acl, create_cdn_web_acl, put_waf_logging_configuration,
  put_cdn_waf_logging_configuration, delete_web_acl, delete_web_acl_with_retries,
}

module _ {W : Type 0} (waf : Waf W) (settings : Settings) (id : String) (i : ServiceInstance)
    (w : W) (message : String) where
  abbrev pub duplicate : Result Summary × W
  duplicate = (err (aws_error "WAFDuplicateItemException" message), w)

  abbrev pub name : String
  unfolding cdn_acl_name
  name = cdn_acl_name settings i

  made_acl-none :
      (s : Work W)
      → waf.create_web_acl name cloudfront (cdn_rules settings name) i.tags s.world ≡ duplicate
      → made_acl waf settings name cloudfront (cdn_rules settings name) i.tags s
        ≡ (ok none, record s { world = w })
  unfolding made_acl tried call pure raise has_code ◌>>=◌
  made_acl-none s h =
      ap
        (λ (x : Result Summary × W).
          (elim x.0 as (λ r. Act W (Option Summary)) [
            | ok made ↦ pure (some made)
            | err e ↦ if has_code "WAFDuplicateItemException" e then pure none else raise e
          ])
            (record s { world = x.1 }))
        h

  module _ (unset : is_set i.dedicated_waf_web_acl_arn ≡ false) where
    not_whole : is_whole (acl_of i) ≡ false
    not_whole = ground (arith, unset)

    create_instance_acl-true :
        (s : Work W)
        → is_cdn_dedicated_waf_instance i.instance_type ≡ true
        → waf.create_web_acl name cloudfront (cdn_rules settings name) i.tags s.world ≡ duplicate
        → create_instance_acl waf settings false i s ≡ (ok true, record s { world = w })
    unfolding create_instance_acl ◌>>=◌ pure
    create_instance_acl-true s kind h =
        ap
          (λ (b : Bool).
            (if b
                then pure true
                else if not (is_cdn_dedicated_waf_instance i.instance_type)
                then raise (runtime_error (plain "unrecognized instance type"))
                else rest)
              s)
          not_whole
        ∙ ap
            (λ (b : Bool).
              (if not b then raise (runtime_error (plain "unrecognized instance type")) else rest)
                s)
            kind
        ∙ ap (λ (x : Result (Option Summary) × Work W). proceed (x.0) stored (x.1))
            (made_acl-none s h)
      where
        stored : Option Summary → Act W Bool
        stored made = elim made [
          | none ↦ pure true
          | some summary ↦ do save (with_acl (summarized waf settings summary) i); pure false
        ]

        rest : Act W Bool
        rest = made_acl waf settings name cloudfront (cdn_rules settings name) i.tags >>= stored

    -- If an instance has no web ACL stored and its name is taken, the tasks that create the web ACL, put
    -- its logging configuration and delete it all return, none of them makes a further call, and no
    -- web ACL is stored.
    pub create_cdn_web_acl_lem :
        (s : Work W)
        → find id s.tables.instances ≡ some i
        → is_cdn_dedicated_waf_instance i.instance_type ≡ true
        → waf.create_web_acl name cloudfront (cdn_rules settings name) i.tags s.world ≡ duplicate
        → (create_cdn_web_acl waf settings id
              >> put_cdn_waf_logging_configuration waf settings id
              >> delete_web_acl waf settings id)
            s
          ≡ (ok tt, record s { world = w })
    unfolding create_cdn_web_acl put_cdn_waf_logging_configuration put_waf_logging_configuration
        delete_web_acl ◌>>=◌ pure
    create_cdn_web_acl_lem s f kind h =
        ap
          (λ (x : Result (Unit {0}) × Work W).
            let y = proceed (x.0) (λ _. put_cdn_waf_logging_configuration waf settings id) (x.1) in
            proceed (y.0) (λ _. delete_web_acl waf settings id) (y.1))
          made
        ∙ ap
            (λ (y : Result (Unit {0}) × Work W).
              proceed (y.0) (λ _. delete_web_acl waf settings id) (y.1))
            logged
        ∙ deleted
      where
        u : Work W
        u = record s { world = w }

        made : create_cdn_web_acl waf settings id s ≡ (ok tt, u)
        made =
            load_found s id i (λ j. create_instance_acl waf settings false j >>= λ _. pure tt) f
            ∙ ap (λ (x : Result Bool × Work W). proceed (x.0) (λ _. pure tt) (x.1))
                (create_instance_acl-true s kind h)

        logged : put_cdn_waf_logging_configuration waf settings id u ≡ (ok tt, u)
        logged =
            load_found u id i
              (λ j.
                put_waf_logging_configuration waf settings j.dedicated_waf_web_acl_arn
                  settings.cdn_waf_cloudwatch_log_group_arn)
              f
            ∙ ap
                (λ (b : Bool).
                  (if not b
                      then pure tt
                      else call (
                          waf.put_logging_configuration (text_in i.dedicated_waf_web_acl_arn)
                            settings.cdn_waf_cloudwatch_log_group_arn))
                    u)
                unset

        deleted : delete_web_acl waf settings id u ≡ (ok tt, u)
        deleted =
            load_found u id i
              (λ j.
                if not (is_whole (acl_of j))
                then pure tt
                else if not (is_cdn_dedicated_waf_instance j.instance_type)
                then raise (runtime_error (plain "unrecognized instance type"))
                else (do
                  delete_web_acl_with_retries waf settings (text_in j.dedicated_waf_web_acl_name)
                      (text_in j.dedicated_waf_web_acl_id) cloudfront
                  save (with_acl (record { arn = none; id = none; name = none }) j)))
              f
            ∙ ap
                (λ (b : Bool).
                  (if not b
                      then pure tt
                      else if not (is_cdn_dedicated_waf_instance i.instance_type)
                      then raise (runtime_error (plain "unrecognized instance type"))
                      else (do
                        delete_web_acl_with_retries waf settings
                            (text_in i.dedicated_waf_web_acl_name)
                            (text_in i.dedicated_waf_web_acl_id) cloudfront
                        save (with_acl (record { arn = none; id = none; name = none }) i)))
                    u)
                not_whole
