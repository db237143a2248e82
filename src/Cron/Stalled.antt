-- ===== src/Cron/Stalled.antt =====
-- `scan_for_stalled_pipelines`, `reschedule_operation` and `restart_stalled_pipelines` of
-- broker/tasks/cron.py
use external_domain_broker.Prelude.{
  ℕ, ◌+◌, Bool, false, ◌&&◌, Option, none, some, List, [], ◌∷◌, map, Result, ok, err,
  attribute_error, key_error, runtime_error, plain, or_raise, leb, filter,
}
use external_domain_broker.Pipelines.{Pipeline}
use external_domain_broker.Models.{
  Operation, InstanceType, alb, cdn, cdn_dedicated_waf, dedicated_alb, Action, provision,
  deprovision, renew, update, migrate_to_broker, is_active, Exec, pure, lift, ◌>>=◌, ◌>>◌,
  get_instance,
}
use external_domain_broker.Worker.{load_operation}
use external_domain_broker.Api.{enqueue}

-- `datetime.timedelta(minutes=15)`, in seconds
abbrev pub fifteen_minutes : ℕ
fifteen_minutes = 900

-- A row that was never changed has no time, and no comparison with it holds.
abbrev pub is_stalled : ℕ → Operation → Bool
is_stalled now o =
    is_active o && (elim o.updated_at [ none ↦ false | some t ↦ leb (t + fifteen_minutes) now ])

unfoldable pub scan_for_stalled_pipelines : ℕ → List Operation → List ℕ
unfolding filter
scan_for_stalled_pipelines now operations =
    map (λ (o : Operation). o.id) (filter (is_stalled now) operations)

-- The dictionary `queues`: the queue functions by type and by action. A type that has no entry is
-- a `KeyError`, an action that has none is `None`.
unfoldable pub recovery_queue : InstanceType → Action → Result (Option Pipeline)
recovery_queue alb deprovision = ok (some Pipeline.alb_deprovision)
recovery_queue alb provision = ok (some Pipeline.alb_provision)
recovery_queue alb renew = ok (some Pipeline.alb_renewal)
recovery_queue alb update = ok (some Pipeline.alb_update)
recovery_queue alb migrate_to_broker = ok none
recovery_queue cdn deprovision = ok (some Pipeline.cdn_deprovision)
recovery_queue cdn migrate_to_broker = ok (some Pipeline.cdn_broker_migration)
recovery_queue cdn provision = ok (some Pipeline.cdn_provision)
recovery_queue cdn renew = ok (some Pipeline.cdn_renewal)
recovery_queue cdn update = ok (some Pipeline.cdn_update)
recovery_queue dedicated_alb deprovision = ok (some Pipeline.alb_deprovision)
recovery_queue dedicated_alb provision = ok (some Pipeline.dedicated_alb_provision)
recovery_queue dedicated_alb renew = ok (some Pipeline.dedicated_alb_renewal)
recovery_queue dedicated_alb update = ok (some Pipeline.dedicated_alb_update)
recovery_queue dedicated_alb migrate_to_broker = ok none
recovery_queue cdn_dedicated_waf deprovision = ok (some Pipeline.cdn_dedicated_waf_deprovision)
recovery_queue cdn_dedicated_waf provision = ok (some Pipeline.cdn_dedicated_waf_provision)
recovery_queue cdn_dedicated_waf renew = ok (some Pipeline.cdn_renewal)
recovery_queue cdn_dedicated_waf update = ok (some Pipeline.cdn_dedicated_waf_update)
recovery_queue cdn_dedicated_waf migrate_to_broker = ok none
recovery_queue _ _ = err key_error

unfoldable pub get_operation : ℕ → Exec (Option Operation)
unfolding load_operation
get_operation id s = (ok (load_operation id s.working.operations), s)

unfoldable pub reschedule_operation : ℕ → Exec Pipeline
unfolding get_operation get_instance recovery_queue enqueue lift pure ◌>>=◌
reschedule_operation operation_id = do
  found ← get_operation operation_id
  o ← lift (or_raise attribute_error found)
  loaded ← get_instance o.service_instance_id
  i ← lift (or_raise attribute_error loaded)
  entry ← lift (recovery_queue i.instance_type o.action)
  pipeline ← lift (or_raise (runtime_error (plain "unknown action")) entry)
  enqueue pipeline o.id (some "Recovered operation")
  pure pipeline

-- An exception for one operation ends the loop.
unfoldable pub restart_all : List ℕ → Exec (Unit {0})
unfolding reschedule_operation pure ◌>>=◌
restart_all [] = pure tt
restart_all (id ∷ ids) = do restarted ← reschedule_operation id; restart_all ids

unfoldable pub restart_stalled_pipelines : ℕ → Exec (Unit {0})
unfolding scan_for_stalled_pipelines restart_all
restart_stalled_pipelines now s =
    restart_all (scan_for_stalled_pipelines now s.working.operations) s
