-- ===== src/Tasks/CloudFront/Steps.antt =====
-- The tasks of broker/tasks/cloudfront.py.
use external_domain_broker.Prelude.{
  String, Bool, true, false, Option, none, some, List, ok, err, Error, runtime_error, plain,
  if◌then◌else◌,
}
use external_domain_broker.Json.{Json, bool, truthy, is_null}
use external_domain_broker.Json.Dicts.{subscript, assigned, changed_at}
use external_domain_broker.Models.{ServiceInstance, Certificate, Tag}
use external_domain_broker.Tasks.Work.{
  Act, Service, ◌>>=◌, ◌>>◌, pure, raise, lift, call, tried, excepted, has_code, load, save,
  new_certificate_of,
}
use external_domain_broker.Tasks.HealthChecks.{listed}
use external_domain_broker.Tasks.Settings.{Settings}
use external_domain_broker.Tasks.Polling.{poll}
use external_domain_broker.Tasks.CloudFront.Config.{
  new_config, updated_config, with_certificate, is_disabled, without_acme_origin, with_logging,
}

-- The calls of the CloudFront client that the tasks make. A distribution is named by the column
-- that holds its id, and configurations are values of JSON.
pub record CloudFront (W : Type 0) : Type 0 where
  pub get_distribution : Json → Service W Json
  pub get_distribution_config : Json → Service W Json
  -- with the configuration and the tags
  pub create_distribution_with_tags : Json → List Tag → Service W Json
  -- with the id, the configuration and the ETag
  pub update_distribution : Json → Json → Json → Service W (Unit {0})
  pub delete_distribution : Json → Json → Service W (Unit {0})
  pub wait_deployed : Json → Service W (Unit {0})
  pub tag_resource : Json → List Tag → Service W (Unit {0})

abbrev pub is_gone : Error → Bool
unfolding has_code
is_gone = has_code "NoSuchDistribution"

-- The new certificate is the current one.
abbrev pub renewed : Certificate → ServiceInstance → ServiceInstance
renewed certificate i = record i {
  current_certificate_id = some certificate.id;
  new_certificate_id = none;
}

module _ {W : Type 0} (c : CloudFront W) (settings : Settings) where
  -- Whether the distribution that the column names is there.
  unfoldable pub exists : Json → Act W Bool
  unfolding tried call pure raise ◌>>=◌
  exists id = do
    answer ← tried (call (c.get_distribution id))
    elim answer [ ok status ↦ pure true | err e ↦ if is_gone e then pure false else raise e ]

  unfoldable pub make_distribution : ServiceInstance → Act W (Unit {0})
  unfolding new_certificate_of lift call save new_config subscript ◌>>=◌
  make_distribution i = do
    certificate ← new_certificate_of i
    (tagged, config) ← lift (new_config settings.cdn_log_bucket i certificate)
    response ← call (c.create_distribution_with_tags config (listed tagged.tags))
    distribution ← lift (subscript "Distribution" response)
    arn ← lift (subscript "ARN" distribution)
    id ← lift (subscript "Id" distribution)
    domain ← lift (subscript "DomainName" distribution)
    save (
        renewed certificate (record tagged {
          cloudfront_distribution_arn = arn;
          cloudfront_distribution_id = id;
          domain_internal = domain;
        }))

  unfoldable pub create_distribution : String → Act W (Unit {0})
  unfolding load exists make_distribution pure ◌>>=◌
  create_distribution id = do
    i ← load id
    if truthy i.cloudfront_distribution_id
        then (do
          there ← exists i.cloudfront_distribution_id
          if there then pure tt else make_distribution i)
        else make_distribution i

  unfoldable pub disable_distribution : String → Act W (Unit {0})
  unfolding load call lift excepted pure subscript assigned changed_at ◌>>=◌
  disable_distribution id = do
    i ← load id
    if is_null i.cloudfront_distribution_id
        then pure tt
        else excepted is_gone (do
          response ← call (c.get_distribution_config i.cloudfront_distribution_id)
          changed ←
              lift (changed_at "DistributionConfig" (assigned "Enabled" (bool false)) response)
          config ← lift (subscript "DistributionConfig" changed)
          etag ← lift (subscript "ETag" changed)
          call (c.update_distribution i.cloudfront_distribution_id config etag))

  -- One round of the loop of `wait_for_distribution_disabled`.
  unfoldable pub disabled_yet : Json → Act W Bool
  unfolding tried call lift pure raise is_disabled ◌>>=◌
  disabled_yet id = do
    answer ← tried (call (c.get_distribution id))
    elim answer [
      | ok status ↦ lift (is_disabled status)
      | err e ↦ if is_gone e then pure true else raise e
    ]

  unfoldable pub wait_for_distribution_disabled : String → Act W (Unit {0})
  unfolding load poll disabled_yet pure raise ◌>>=◌
  wait_for_distribution_disabled id = do
    i ← load id
    if is_null i.cloudfront_distribution_id then pure tt else (do
      disabled ← poll settings.aws_poll_max_attempts (disabled_yet i.cloudfront_distribution_id)
      if disabled then pure tt else raise (runtime_error (plain "Failed to disable distribution")))

  unfoldable pub delete_distribution : String → Act W (Unit {0})
  unfolding load call lift excepted pure subscript ◌>>=◌
  delete_distribution id = do
    i ← load id
    if is_null i.cloudfront_distribution_id
        then pure tt
        else excepted is_gone (do
          status ← call (c.get_distribution i.cloudfront_distribution_id)
          etag ← lift (subscript "ETag" status)
          call (c.delete_distribution i.cloudfront_distribution_id etag))

  unfoldable pub wait_for_distribution : String → Act W (Unit {0})
  unfolding load call ◌>>=◌
  wait_for_distribution id = do i ← load id; call (c.wait_deployed i.cloudfront_distribution_id)

  unfoldable pub update_certificate : String → Act W (Unit {0})
  unfolding load new_certificate_of call lift save subscript with_certificate ◌>>=◌
  update_certificate id = do
    i ← load id
    response ← call (c.get_distribution_config i.cloudfront_distribution_id)
    config ← lift (subscript "DistributionConfig" response)
    certificate ← new_certificate_of i
    changed ← lift (with_certificate certificate.iam_server_certificate_id config)
    etag ← lift (subscript "ETag" response)
    call (c.update_distribution i.cloudfront_distribution_id changed etag)
    save (renewed certificate i)

  unfoldable pub update_distribution : String → Act W (Unit {0})
  unfolding load new_certificate_of call lift save subscript updated_config ◌>>=◌
  update_distribution id = do
    i ← load id
    response ← call (c.get_distribution_config i.cloudfront_distribution_id)
    etag ← lift (subscript "ETag" response)
    config ← lift (subscript "DistributionConfig" response)
    certificate ← new_certificate_of i
    (tagged, changed) ← lift (updated_config i certificate config)
    call (c.update_distribution i.cloudfront_distribution_id changed etag)
    call (c.tag_resource i.cloudfront_distribution_arn (listed tagged.tags))
    save (renewed certificate tagged)

  -- An update of the configuration, if there is one to make.
  abbrev sent : ServiceInstance → Json → Option Json → Act W (Unit {0})
  unfolding call pure
  sent i etag none = pure tt
  sent i etag (some config) = call (c.update_distribution i.cloudfront_distribution_id config etag)

  unfoldable pub remove_s3_bucket_from_cdn_broker_instance : String → Act W (Unit {0})
  unfolding load call lift pure subscript without_acme_origin ◌>>=◌
  remove_s3_bucket_from_cdn_broker_instance id = do
    i ← load id
    response ← call (c.get_distribution_config i.cloudfront_distribution_id)
    etag ← lift (subscript "ETag" response)
    config ← lift (subscript "DistributionConfig" response)
    changed ← lift (without_acme_origin config)
    sent i etag changed

  unfoldable pub add_logging_to_bucket : String → Act W (Unit {0})
  unfolding load call lift pure subscript with_logging ◌>>=◌
  add_logging_to_bucket id = do
    i ← load id
    response ← call (c.get_distribution_config i.cloudfront_distribution_id)
    config ← lift (subscript "DistributionConfig" response)
    etag ← lift (subscript "ETag" response)
    changed ← lift (with_logging settings.cdn_log_bucket i config)
    sent i etag changed
