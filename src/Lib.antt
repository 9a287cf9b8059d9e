-- ===== src/Lib.antt =====
-- DeceptiForge: the safety-critical core of the API service (apps/api/app), modelled and verified.
--
-- DeceptiForge plants decoys in a customer's repositories, watches for contact with them and turns
-- the contacts into alerts and incidents. A request enters through the rate limiter and the replay
-- guard; detections go through the alerting pipeline, whose alerts are reconstructed into incidents
-- and exported; decoys reach a repository only through an approved deployment; a second region may
-- take over through the failover service.
--
-- The parts, with their sources below apps/api/app:
--   Base         shared names, tests on numbers and texts, lists over native numbers.
--   Replay       services/replay.py. Store: InMemoryReplayStore.reserve and RedisReplayStore.reserve;
--                Guard: ReplayGuard.check, over any store; SingleUse, Gaps: its theorems.
--   RateLimit    services/rate_limit.py. Window: InMemoryRateLimiter.allow; Redis:
--                RedisRateLimiter.allow over a client with the documented laws of sorted sets.
--   Judge        services/judge_quota.py. Quota: state, check and consume of JudgeQuotaService.
--   Reliability  models/domain/reliability.py (States), services/reliability/failover.py with the
--                event log of repositories/reliability.py (Failover), fencing.py and degraded.py
--                (Fencing).
--   Alerting     services/alerting/scoring.py (Scoring) and engine.py: combine_alerts (Merge) and
--                AlertingPipeline (Pipeline), on the types of models/domain/operations.py (Types).
--   Deployment   models/domain/deployment.py (Status), repositories/deployments.py (Rows),
--                services/deployment/service.py: execute (Service), verify (Verify), retire and
--                rollback (Removal); api/deployments.py with get_db (Requests); Operations runs any
--                sequence of them.
--   Learning     services/learning/versions.py (Versions).
--   Sensor       services/agent_sensor/rules.py (Rules), sequence.py and the severity of
--                classification.py (Sequence).
--   Incident     services/incident_reconstruction/engine.py: grouping, kind and severity (Engine).
--   Artifacts    repositories/artifacts.py: the upsert and lookup of alerts (Alerts), the queue of
--                reconstruction jobs (Jobs), incidents (Incidents) and the batched deletion with its
--                purges (Retention); services/incident_reconstruction/worker.py (Worker).
--   Secrets      services/encryption.py with the sealed texts of the repository (Tokens) and
--                services/monitor_signing.py (Signing), on joined texts (Fields).
--   Capacity     services/capacity.py: the limits of tenants (Limits) and MonitoringQuotaGate (Quota).
--   Access       services/api_keys.py: the catalog of scopes (Catalog), assert_grantable (Grants) and
--                ApiKeyService (Keys); services/monitor_credentials.py (Monitors); security.py:
--                _authenticate and require_scope (Authorize).
--   Export       models/domain/integrations.py (Envelope), services/integrations/profiles.py
--                (Profiles), routing.py (Routing), outbox.py (Outbox), retry.py (Retry), worker.py
--                (Worker), claim_deliveries of repositories/integrations.py (Claims) and run_once in
--                the transaction of jobs/_runtime.py (Jobs).
-- The other modules of each part hold its lemmas and theorems, and Tests its concrete runs.
--
-- Conventions. State is passed explicitly; a raised exception is a value of the result. Times are
-- natural numbers, in microseconds unless a file says otherwise; confidences and scores are in
-- hundredths. Dictionaries and tables are lists in the order that the code reads them. Loops are
-- recursions on their lists, but for two that ask the database again in every round and run on
-- fuel: the worker's drain, for which more fuel than pending jobs is enough, and the batched
-- deletion, for which more fuel than matching rows is enough.
--
-- Parameters, since their code is not in the repository: the Redis client, the repository client
-- of a deployment, the Fernet cipher and the base64 codec, the digests (sha256, uuid5) and the
-- decimal text of a number, the order of two ids' texts, the reading of a text as a float.
-- Arguments, since they are not modelled: the answer of the deployment's safety gate, the engine's
-- whole incidents, the sizes of an artifact and of an event, the class of a path and the match of
-- a path with a pattern, the answer of an export's destination.
--
-- Not modelled: routes, settings, the ORM and migrations, texts for people, the language model
-- calls, the other sensors, placement and generation of decoys, the coverage scores.
pub mod Base
pub mod Replay
pub mod RateLimit
pub mod Judge
pub mod Reliability
pub mod Alerting
pub mod Artifacts
pub mod Deployment
pub mod Learning
pub mod Sensor
pub mod Incident
pub mod Export
pub mod Secrets
pub mod Capacity
pub mod Access
