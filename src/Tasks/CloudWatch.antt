-- ===== src/Tasks/CloudWatch.antt =====
-- broker/tasks/cloudwatch.py
pub mod Alarms
use Prim.Native.String
use external_domain_broker.Prelude.{
  ℕ, String, string_eq, ◌==◌, Bool, true, false, not, Option, none, some, List, [], ◌∷◌, ◌++◌,
  Result, ok, err, Error, aws_error, type_error, runtime_error, plain, elem, filter, is_empty, map,
  if◌then◌else◌, or_raise,
}
use external_domain_broker.Json.{Json, str}
use external_domain_broker.Text.{contains}
use external_domain_broker.Models.{ServiceInstance, HealthCheck, Alarm, Tag}
use external_domain_broker.Tasks.Work.{
  Work, Act, Service, ◌>>=◌, ◌>>◌, pure, raise, call, lift, unless, load, save, is_set,
}
use external_domain_broker.Tasks.HealthChecks.{listed}
use external_domain_broker.Tasks.Settings.{Settings}
use external_domain_broker.Tasks.Sns.{text_in}

-- What an alarm watches.
pub data Metric : Type 0 where
  -- `HealthCheckStatus` of a health check, below the threshold
  health_check_status : String → Metric
  -- `DDoSDetected` of a distribution, at the threshold or above
  ddos_detected : Json → Metric

-- The calls of the CloudWatch client.
pub record CloudWatch (W : Type 0) : Type 0 where
  -- with the name, the ARN of the topic, the tags and what is watched
  pub put_metric_alarm : String → String → List Tag → Metric → Service W (Unit {0})
  -- the waiter `alarm_exists`
  pub wait_exists : String → Service W (Unit {0})
  pub delete_alarms : List String → Service W (Unit {0})

-- `"ResourceNotFound" in e.response["Error"]["Code"]`
unfoldable pub is_unknown_alarm : Error → Bool
is_unknown_alarm e = elim e [
  | aws_error code message ↦ contains "ResourceNotFound" code
  | _ ↦ false
]

abbrev pub alarm_names : List Alarm → List String
alarm_names alarms = map (λ (a : Alarm). a.alarm_name) alarms

module _ {W : Type 0} (watch : CloudWatch W) (settings : Settings) where
  -- `_get_alarm_name`
  abbrev pub get_alarm_name : String → String
  get_alarm_name health_check_id =
      String.◌++◌ settings.aws_resource_prefix (String.◌++◌ "-" health_check_id)

  abbrev generate_ddos_alarm_name : String → String
  generate_ddos_alarm_name id =
      String.◌++◌ settings.aws_resource_prefix (String.◌++◌ "-" (String.◌++◌ id "-DDoSDetected"))

  -- `_create_cloudwatch_alarm`
  unfoldable pub create_cloudwatch_alarm : String → String → List Tag → Metric → Act W (Unit {0})
  unfolding call ◌>>=◌
  create_cloudwatch_alarm name topic tags metric = do
    call (watch.put_metric_alarm name topic tags metric)
    call (watch.wait_exists name)

  -- `_create_health_check_alarms`
  unfoldable pub create_each_alarm :
      List HealthCheck → List Alarm → String → List Tag → Act W (List Alarm)
  unfolding create_cloudwatch_alarm pure ◌>>=◌
  create_each_alarm [] alarms topic tags = pure alarms
  create_each_alarm (c ∷ cs) alarms topic tags = do
    let name = get_alarm_name c.health_check_id
    create_cloudwatch_alarm name topic tags (health_check_status c.health_check_id)
    create_each_alarm cs
        (alarms ++ record { alarm_name = name; health_check_id = c.health_check_id } ∷ []) topic
        tags

  unfoldable pub create_health_check_alarms : String → Act W (Unit {0})
  unfolding load lift create_each_alarm save pure raise ◌>>=◌
  create_health_check_alarms id = do
    i ← load id
    if not (is_set i.sns_notification_topic_arn)
        then raise (runtime_error (plain "Could not find sns_notification_topic_arn"))
        else (do
          checks ← lift (or_raise type_error i.route53_health_checks)
          if is_empty checks then pure tt else (do
            alarms ←
                create_each_alarm checks [] (text_in i.sns_notification_topic_arn) (listed i.tags)
            save (record i { cloudwatch_health_check_alarms = some alarms })))

  -- `_delete_alarms`
  unfoldable pub delete_alarms : List String → Act W (Unit {0})
  unfolding unless is_unknown_alarm
  delete_alarms names = unless is_unknown_alarm (watch.delete_alarms names)

  -- `_delete_cloudwatch_health_check_alarms`
  unfoldable pub delete_cloudwatch_alarms : List Alarm → List String → Act W (List Alarm)
  unfolding delete_alarms pure filter elem ◌>>=◌
  delete_cloudwatch_alarms alarms names = do
    delete_alarms names
    pure (filter (λ (a : Alarm). not (elem a.alarm_name names)) alarms)

  unfoldable pub delete_health_check_alarms : String → Act W (Unit {0})
  unfolding load delete_cloudwatch_alarms save ◌>>=◌
  delete_health_check_alarms id = do
    i ← load id
    let alarms = listed i.cloudwatch_health_check_alarms
    if is_empty (alarm_names alarms) then save i else (do
      updated ← delete_cloudwatch_alarms alarms (alarm_names alarms)
      save (record i { cloudwatch_health_check_alarms = some updated }))

  unfoldable pub create_ddos_detected_alarm : String → Act W (Unit {0})
  unfolding load create_cloudwatch_alarm save pure raise ◌>>=◌
  create_ddos_detected_alarm id = do
    i ← load id
    if not (is_set i.sns_notification_topic_arn)
        then raise (runtime_error (plain "Could not find sns_notification_topic_arn"))
        else if is_set i.ddos_detected_cloudwatch_alarm_name
        then pure tt
        else (do
          create_cloudwatch_alarm (generate_ddos_alarm_name i.id)
              (text_in i.sns_notification_topic_arn) (listed i.tags)
              (ddos_detected i.cloudfront_distribution_arn)
          save (record i {
            ddos_detected_cloudwatch_alarm_name = some (generate_ddos_alarm_name i.id);
          }))

  unfoldable pub delete_ddos_detected_alarm : String → Act W (Unit {0})
  unfolding load delete_alarms save pure ◌>>=◌
  delete_ddos_detected_alarm id = do
    i ← load id
    if not (is_set i.ddos_detected_cloudwatch_alarm_name) then pure tt else (do
      delete_alarms (text_in i.ddos_detected_cloudwatch_alarm_name ∷ [])
      save (record i { ddos_detected_cloudwatch_alarm_name = none }))
