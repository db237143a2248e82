-- ===== src/Tasks/Sns.antt =====
-- broker/tasks/sns.py
use Prim.Native.String
use external_domain_broker.Prelude.{
  String, Bool, false, not, ◌&&◌, ◌||◌, Option, none, some, List, Error, aws_error, runtime_error,
  plain, if◌then◌else◌,
}
use external_domain_broker.Json.{Json, truthy}
use external_domain_broker.Text.{contains}
use external_domain_broker.Models.{ServiceInstance, Tag}
use external_domain_broker.Tasks.Work.{
  Act, Service, ◌>>=◌, ◌>>◌, pure, raise, call, unless, load, save, is_set,
}
use external_domain_broker.Tasks.HealthChecks.{listed}
use external_domain_broker.Tasks.Settings.{Settings}

-- The calls of the SNS client.
pub record Sns (W : Type 0) : Type 0 where
  -- with the name and the tags; the ARN of the topic
  pub create_topic : String → List Tag → Service W String
  -- with the ARN of the topic and the address; the ARN of the subscription
  pub subscribe : String → Json → Service W String
  pub delete_topic : String → Service W (Unit {0})
  pub unsubscribe : String → Service W (Unit {0})

-- `"NotFound" in e.response["Error"]["Code"]`
unfoldable pub is_not_found : Error → Bool
is_not_found e = elim e [ aws_error code message ↦ contains "NotFound" code | _ ↦ false ]

-- The errors of `unsubscribe` that are no failure.
unfoldable pub is_unsubscribed : Error → Bool
is_unsubscribed e = elim e [
  | aws_error code message ↦
      contains "NotFound" code
      || (contains "InvalidParameter" code && contains "pending confirmation" message)
  | _ ↦ false
]

abbrev pub text_in : Option String → String
text_in none = ""
text_in (some s) = s

abbrev topic_name : Settings → ServiceInstance → String
topic_name settings i =
    String.◌++◌ settings.aws_resource_prefix (String.◌++◌ "-" (String.◌++◌ i.id "-notifications"))

module _ {W : Type 0} (sns : Sns W) (settings : Settings) where
  unfoldable pub create_notification_topic : String → Act W (Unit {0})
  unfolding load call save pure ◌>>=◌
  create_notification_topic id = do
    i ← load id
    if is_set i.sns_notification_topic_arn then pure tt else (do
      arn ← call (sns.create_topic (topic_name settings i) (listed i.tags))
      save (record i { sns_notification_topic_arn = some arn }))

  unfoldable pub subscribe_notification_topic : String → Act W (Unit {0})
  unfolding load call save pure raise ◌>>=◌
  subscribe_notification_topic id = do
    i ← load id
    if is_set i.sns_notification_topic_subscription_arn
        then pure tt
        else if not (is_set i.sns_notification_topic_arn)
        then raise (runtime_error (plain "SNS topic is required"))
        else if not (truthy i.alarm_notification_email)
        then raise (runtime_error (plain "alarm_notification_email must be specified"))
        else (do
          arn ←
              call (sns.subscribe (text_in i.sns_notification_topic_arn) i.alarm_notification_email)
          save (record i { sns_notification_topic_subscription_arn = some arn }))

  unfoldable pub delete_notification_topic : String → Act W (Unit {0})
  unfolding load unless is_not_found save pure ◌>>=◌
  delete_notification_topic id = do
    i ← load id
    if not (is_set i.sns_notification_topic_arn) then pure tt else (do
      unless is_not_found (sns.delete_topic (text_in i.sns_notification_topic_arn))
      save (record i { sns_notification_topic_arn = none }))

  unfoldable pub unsubscribe_notification_topic : String → Act W (Unit {0})
  unfolding load unless is_unsubscribed save pure ◌>>=◌
  unsubscribe_notification_topic id = do
    i ← load id
    if not (is_set i.sns_notification_topic_subscription_arn) then pure tt else (do
      unless is_unsubscribed (sns.unsubscribe (text_in i.sns_notification_topic_subscription_arn))
      save (record i { sns_notification_topic_subscription_arn = none }))
