-- ===== src/Lib.antt =====
-- The external domain broker: a service broker that gives applications custom domains, by a load
-- balancer (ALB) or a CDN (CloudFront), with certificates from Let's Encrypt.
--
-- Parts. `broker/api.py` answers the requests of the Open Service Broker API: it validates the
-- parameters, changes the tables in one database session, commits an operation and queues the
-- tasks of a pipeline. `broker/pipelines` says which tasks, in which order. `broker/tasks/huey.py`
-- runs them, each with its retries, and `broker/tasks/update_operations.py` ends the operation.
-- `broker/tasks/cron.py` starts renewals and starts stalled pipelines again.
--
-- Files.
--   Prelude, Json, Text: results and errors, lists, JSON values and Python's text methods.
--   Env: the configuration, the DNS resolver, the Cloud Foundry and CloudFront answers, and Python's
--     `upper`, `lower` and `strip`, as parameters.
--   Validators: broker/validators.py and broker/dns.py. `follow` is the loop `while cname`, with
--     the visited names as an argument.
--   Utils: broker/lib/utils.py (the uniqueness of domains is in Domains, as it reads the tables).
--   Models: broker/models.py. One record holds the columns of all the classes; `instance_type`
--     says which class it is. `Session` holds the committed tables, the session's own, and the jobs
--     that were queued; a handler is a function from a session to a result and a session.
--   Domains: `UniqueDomains` of broker/validators.py, and who holds a domain.
--   Tags, Policies, Cdn: broker/lib/tags.py, broker/lib/cache_policy_manager.py and
--     broker/lib/origin_request_policy_manager.py, broker/lib/cdn.py and broker/lib/alb.py.
--   Pipelines: broker/pipelines. A queue function is the list of its calls, each with the task and
--     how the operation's id is passed. Protocol has the order of the tasks as a state machine.
--   Api: broker/api.py. Provision, Deprovision, Update (with Branches) and Poll are the handlers.
--   Worker: broker/tasks/huey.py and broker/tasks/update_operations.py. A run is an operation with
--     the calls that are left; how each attempt ends is given from outside.
--   Tasks: the other tasks of broker/tasks. Work has the tables that they use, and a task as a
--     function from the outside world and the committed tables to a result and these two; Rules has
--     what holds when it returns or raises; Polling is the loops that ask a service again. Route53,
--     HealthChecks, CloudFront, Alb, Iam, Acme, Sns, Waf, Shield and CloudWatch are the modules of
--     those names (Acme is broker/tasks/letsencrypt.py); the state of a service is
--     whatever its calls make of it, and a theorem that relies on a service says what it relies on.
--     Balancers loads the dedicated load balancers (broker/tasks/cron.py and broker/models.py), and
--     InstanceType is broker/tasks/update_instances.py, in a `Session` of its own.
--   Cron: broker/tasks/cron.py without `load_albs`.
--   Cf: broker/lib/cf.py; the client's token and its remembered names are a record, and Token is
--     about the token.
--   Commands: broker/commands/duplicate_certs.py.
--   Examples: concrete data for the theorems.
--
-- Bounds. `Env.fuel` bounds the CNAME records followed for one domain and the pages of one policy
-- listing. Running out is an error of its own, `out_of_fuel`; for the records, any fuel that
-- exceeds by two the number of names that they point to is enough. Numbers are unbounded, as in
-- Python; times are seconds.
--
-- Not modelled. The commands for web ACLs and tags, the sleeps between calls, the wording of
-- messages, logging, and the set-up of the application. A request runs alone: the interleaving of
-- two requests in the database is not modelled.
pub mod Prelude
pub mod Json
pub mod Text
pub mod Env
pub mod Validators
pub mod Utils
pub mod Pipelines
pub mod Models
pub mod Tags
pub mod Policies
pub mod Cdn
pub mod Domains
pub mod Api
pub mod Worker
pub mod Cf
pub mod Commands
pub mod Tasks
pub mod Cron
pub mod Examples
