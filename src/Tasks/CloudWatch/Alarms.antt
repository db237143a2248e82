-- ===== src/Tasks/CloudWatch/Alarms.antt =====
-- The alarms that an instance has, in broker/tasks/cloudwatch.py.
use external_domain_broker.Prelude.{
  String, string_eq, true, not, some, ok, err, Error, All, List, [], ◌∷◌, ◌≡◌, refl, sym, subst,
  ◌∙◌, arith, elem, filter, is_empty, map, eq_refl,
}
use external_domain_broker.Models.{ServiceInstance, HealthCheck, Alarm, Tag, find, write}
use external_domain_broker.Domains.Holders.{find-id, find-written}
use external_domain_broker.Tasks.Work.{Work, Tables, save}
use external_domain_broker.Tasks.Rules.{
  Ends, ok-Ends, pure-Ends, choice-Ends, bind-Ends, load_found, unless_asked-Ends,
}
use external_domain_broker.Tasks.HealthChecks.{listed}
use external_domain_broker.Tasks.Settings.{Settings}
use external_domain_broker.Tasks.Sns.{text_in}
use external_domain_broker.Tasks.CloudWatch.{
  CloudWatch, Metric, get_alarm_name, health_check_status, delete_alarms, delete_cloudwatch_alarms,
  delete_health_check_alarms, alarm_names, is_unknown_alarm,
}

-- No alarm is left of those that are named.
left_of :
    (names : List String) (alarms : List Alarm)
    → ((n : String) → elem n (alarm_names alarms) ≡ true → elem n names ≡ true)
    → filter (λ (a : Alarm). not (elem a.alarm_name names)) alarms ≡ []
unfolding filter elem
left_of names [] h = refl
left_of names (a ∷ alarms) h =
    let named = h a.alarm_name (ground (arith, eq_refl a.alarm_name)) in
    let rest = left_of names alarms λ n k. h n (ground arith) in ground (arith, named, rest)

no_names : (alarms : List Alarm) → is_empty (alarm_names alarms) ≡ true → alarms ≡ []
no_names [] h = refl
no_names (a ∷ alarms) h = absurd (ground arith)

-- What CloudWatch has been told: `G` holds of an alarm, with its topic, tags and metric, once its put
-- returned, and ever after; `X` holds of a name once its deletion returned or found no such alarm.
pub record Remembers {W : Type 0} (watch : CloudWatch W)
    (G : String → String → List Tag → Metric → W → Type 0) (X : String → W → Type 0) : Type 0 where
  pub is_put :
      (name topic : String) (tags : List Tag) (m : Metric) (w w' : W)
      → watch.put_metric_alarm name topic tags m w ≡ (ok tt, w')
      → G name topic tags m w'
  pub stays_at_put :
      (name topic : String) (tags : List Tag) (m : Metric) (w : W) (other : String) (to : String)
      (with_tags : List Tag) (k : Metric)
      → G name topic tags m w
      → G name topic tags m ((watch.put_metric_alarm other to with_tags k w).1)
  pub stays_at_wait :
      (name topic : String) (tags : List Tag) (m : Metric) (w : W) (other : String)
      → G name topic tags m w
      → G name topic tags m ((watch.wait_exists other w).1)
  pub is_deleted :
      (names : List String) (w w' : W)
      → watch.delete_alarms names w ≡ (ok tt, w')
      → All (λ (n : String). X n w') names
  pub is_missing :
      (names : List String) (w w' : W) (e : Error)
      → watch.delete_alarms names w ≡ (err e, w')
      → is_unknown_alarm e ≡ true
      → All (λ (n : String). X n w') names

module _ {W : Type 0} (watch : CloudWatch W) (settings : Settings) where
  abbrev pub alarm_of : HealthCheck → Alarm
  alarm_of c = record {
    alarm_name = get_alarm_name watch settings c.health_check_id;
    health_check_id = c.health_check_id;
  }

  -- The alarms that the instance has after the task: no checks leave it as it was.
  abbrev pub expected : ServiceInstance → List HealthCheck → List Alarm
  expected i [] = listed i.cloudwatch_health_check_alarms
  expected i (c ∷ cs) = map alarm_of (c ∷ cs)

module _ {W : Type 0} (watch : CloudWatch W) (settings : Settings)
    (G : String → String → List Tag → Metric → W → Type 0) (X : String → W → Type 0)
    (law : Remembers watch G X) where
  -- CloudWatch was given an alarm for the status of each check.
  abbrev pub Given : String → List Tag → List HealthCheck → W → Type 0
  Given topic tags checks w =
      All
        (λ (c : HealthCheck).
          G (get_alarm_name watch settings c.health_check_id) topic tags
            (health_check_status c.health_check_id) w)
        checks

  module _ (t : Tables) (topic : String) (tags : List Tag) where
    abbrev Free : Work W → Type 0
    Free s = s.tables ≡ t

    abbrev Put : List HealthCheck → Unit {0} → Work W → Type 0
    Put done a s = Free s × Given topic tags done s.world

    abbrev Made : List HealthCheck → List HealthCheck → List Alarm → List Alarm → Work W → Type 0
    Made done checks all alarms u =
        Free u × (alarms ≡ all) × Given topic tags done u.world × Given topic tags checks u.world

  module _ (id : String) where
    abbrev Any : Work W → Type 0
    Any s = Unit

    -- The instance is stored with these alarms.
    pub record HasAlarms (alarms : List Alarm) (u : Work W) : Type 0 where
      pub row : ServiceInstance
      pub stored : find id u.tables.instances ≡ some row
      pub are : listed row.cloudwatch_health_check_alarms ≡ alarms

    stored_with :
        (i j : ServiceInstance) (alarms : List Alarm) (s u : Work W)
        → find id s.tables.instances ≡ some i
        → u.tables ≡ s.tables
        → j.id ≡ i.id
        → listed j.cloudwatch_health_check_alarms ≡ alarms
        → HasAlarms alarms
            (record u { tables = record u.tables { instances = write j u.tables.instances } })
    stored_with i j alarms s u f x d e = record {
      row = j;
      stored =
          find-written id j u.tables.instances i (d ∙ find-id id s.tables.instances i f)
            (subst (λ (t : Tables). find id t.instances ≡ some i) (sym x) f);
      are = e;
    }

    -- The instance has the alarms, and CloudWatch was given an alarm for each of the checks.
    abbrev pub Watched : ServiceInstance → List HealthCheck → Unit {0} → Work W → Type 0
    Watched i checks a u =
        HasAlarms (expected watch settings i checks) u
        × Given (text_in i.sns_notification_topic_arn) (listed i.tags) checks u.world

    -- The instance has no alarms, and those that it had are gone from CloudWatch.
    abbrev pub Unwatched : ServiceInstance → Unit {0} → Work W → Type 0
    Unwatched i a u =
        HasAlarms [] u
        × All (λ (n : String). X n u.world) (alarm_names (listed i.cloudwatch_health_check_alarms))

    deleted-Ends :
        (alarms : List Alarm) (s : Work W)
        → Ends Any
            (λ left u.
              (u.tables ≡ s.tables)
              × (left ≡ [])
              × All (λ (n : String). X n u.world) (alarm_names alarms))
            (delete_cloudwatch_alarms watch settings alarms (alarm_names alarms) s)
    unfolding delete_cloudwatch_alarms delete_alarms
    deleted-Ends alarms s =
        let names = alarm_names alarms in
        let Out = λ (left : List Alarm) (u : Work W).
          (u.tables ≡ s.tables) × (left ≡ []) × All (λ (n : String). X n u.world) names in
        let Cut = λ (a : Unit {0}) (u : Work W).
          (u.tables ≡ s.tables) × All (λ (n : String). X n u.world) names in
        bind-Ends Any Cut Out (delete_alarms watch settings names) _ s
          (unless_asked-Ends Any Cut is_unknown_alarm (watch.delete_alarms names) s (λ e w h. tt)
            (λ w h. (refl, law.is_deleted names s.world w h))
            λ e w h k. (refl, law.is_missing names s.world w e h k))
          λ a u (q, g). pure-Ends Any Out _ u (q, left_of names alarms (λ n k. k), g)

    -- If the instance is stored and delete_health_check_alarms returns, it is stored without alarms,
    -- and each alarm that it had was deleted in CloudWatch or was not found there.
    pub delete_health_check_alarms-Ends :
        (i : ServiceInstance) (s : Work W)
        → find id s.tables.instances ≡ some i
        → Ends Any (Unwatched i) (delete_health_check_alarms watch settings id s)
    unfolding delete_health_check_alarms save
    delete_health_check_alarms-Ends i s f =
        let alarms = listed i.cloudwatch_health_check_alarms in
        let Out = λ (left : List Alarm) (u : Work W).
          (u.tables ≡ s.tables)
          × (left ≡ [])
          × All (λ (n : String). X n u.world) (alarm_names alarms) in
        subst (Ends Any (Unwatched i)) (sym (load_found s id i _ f)) (
          choice-Ends Any (Unwatched i) (is_empty (alarm_names alarms)) (save i) _ s
            (λ e. ok-Ends Any (Unwatched i) tt _ (
              stored_with i i [] s s f refl refl (no_names alarms e),
              nothing alarms (no_names alarms e),
            ))
            λ _.
              bind-Ends Any Out (Unwatched i)
                (delete_cloudwatch_alarms watch settings alarms (alarm_names alarms)) _ s
                (deleted-Ends alarms s)
                λ left u (x, m, g). ok-Ends Any (Unwatched i) tt _ (
                  stored_with i (record i { cloudwatch_health_check_alarms = some left }) [] s u f x
                      refl m,
                  g,
                ))
      where
        nothing :
            (alarms : List Alarm)
            → alarms ≡ []
            → All (λ (n : String). X n s.world) (alarm_names alarms)
        nothing alarms e = subst (λ l. All (λ (n : String). X n s.world) (alarm_names l)) (sym e) tt
