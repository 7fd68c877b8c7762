-- ===== src/Lib.antt =====
-- B8MON (Nodeglow), the monitoring backend: the parts of backend/ and sidecar/ that decide something.
--
-- The program runs jobs on a schedule. They check hosts, collect logs, and every few minutes
-- correlate what was seen into incidents, which operators are notified of. Every part that is
-- modelled here is a module:
--   Base: what the others share. Numbers are the native naturals. Texts are byte strings, their
--     characters are those of the program.
--   SharedState (backend/services/shared_state.py): the counters of a sliding window and the lease of
--     the leader. Its child Redis has the public functions over a client that may fail, Lease the two
--     Lua scripts. Agrees, Window and Forgets hold the lemmas on the store.
--   RateLimit (backend/ratelimit.py): the limiter, on SharedState. Reference is the limiter as a log of
--     which nothing is forgotten.
--   Scheduler (backend/scheduler.py): the election of the instance that runs the jobs, as a step
--     relation on a cluster of instances and the lease.
--   Incidents (backend/models/incident.py and _find_or_create_incident of
--     backend/services/correlation.py): the tables, how a finding finds its incident (Dedup), and
--     the pruning of events (Retention).
--   Correlation (backend/services/correlation.py): the counters of consecutive cycles, what each rule
--     detects (Rules), the pass that resolves incidents (Resolve), and the cycle (Run). A detection is
--     a value, so that a rule is a function from what its queries answer (World) to detections, and
--     one function takes the steps that all rules take for each. Every query of a rule may raise, in each
--     rule on its own (Worlds), and so may the commit; reading and writing the incidents does not.
--     Streak is about the counters, Resolve.Over and Resolve.Exact about what is resolved,
--     Resolve.Upstream about incidents of failures further up.
--   Predictor (backend/services/predictor_config.py): the settings of the rule on learned precursors.
--     Blacklist is about the list of patterns; Example is a library that meets its hypotheses.
--   IncidentApi (backend/routers/api_v1.py): what operators do to an incident. Lifecycle is about the
--     incidents, Silenced about the way of a label through Predictor to the rule of Correlation.
--   Topology (backend/services/topology.py): ancestors, descendants, and which offline hosts only
--     follow a failure above them.
--   Probes (backend/services/probes.py): hosts that are checked from elsewhere.
--   Metrics (backend/services/metrics.py): what an instrumented job records.
--   SelfCheck (backend/services/self_check.py): problems of the program itself. It files incidents
--     through Correlation and reads Metrics and Probes. Checks has the verdicts on one source or job.
--   Syslog (backend/services/syslog.py): the rate limits and the buffer. Window is about one source's
--     limit, Delivery and Repeats about the buffer, with inserts that raise after they have
--     stored some rows, Connections about the TCP handlers.
--   Notifications (backend/notifications.py): the cooldown of a title, and the channels.
--   AlertRules (backend/services/rules.py): the operators' own rules. Values has JSON data, the
--     search for a field and the operators; Paths is about that search, Firing about cycles.
--   HostCheck (backend/utils/ping.py): the checks of one host, taken together.
--   Sampling (backend/services/_sampling.py): the choice of the rows of a time series.
--   LogIntelligence (backend/services/log_intelligence.py): the counts of templates and the bursts.
--     Messages has the processing of a message and the noise score; Counts, Insertion and Flush are
--     about the way of the counts into the table; Bursts, Agrees, Page and Hysteresis about the bursts.
--     A flush is one step, in which no message comes in.
--   Ldap (backend/services/ldap_auth.py): who may log in by the directory. Bind is about what that takes.
--   Login (backend/routers/auth.py, get_current_user of backend/models/settings.py, log_action of
--     backend/services/audit.py): the login with its throttles, the lockout and both ways of
--     authentication (Handler), on RateLimit and Ldap; whose request a request is, and logging out
--     (Sessions). Failures, Stored and Lockout are about the lockout; Effects, Rows, Apart, Kept and
--     Tokens about the life of a session; Answers splits a login into its cases.
--   Agents (backend/routers/agents.py): the enrolment of agents and whose a report is (Enroll). Admitted
--     is about the credential of an enrolment, Reports about the token that it hands out.
--   Csrf (backend/csrf.py): the token of forms. Cut is about cutting a text at its last dot.
--   Updater (sidecar/orchestrator.py): the chain of update steps, over a machine that is an argument.
--     Context has what the steps are given, Steps the six steps, Backups the dumps, Chain and Restart
--     are about the order of the steps.
--
-- State is passed explicitly. The clock's readings are arguments, in whole seconds (milliseconds for
-- the lease). A difference of two times that could be below 0 is written as a comparison of sums.
-- Code of other packages is an argument: the Redis client, SHA-256, the answers of PostgreSQL and
-- ClickHouse, the commands that the update runs.
--
-- Fuel: the walk to a host's ancestors gets one round more than the topology has entries, which is
-- enough also when parents form a cycle, since no parent is visited twice. The walk to the
-- descendants gets two more, since no host is queued twice. The search for a field gets one start more than the
-- path has parts, since each wildcard on the path restarts it at most once. The digits of a number
-- get one round more than the number. All other loops are structural.
--
-- Rates of log messages are whole thousandths and confidences whole millionths. JSON, regular expressions
-- and conversions of Python, the HMAC, bcrypt and the directory's client are arguments too.
--
-- Not modelled: the cache of the topology and its construction from the database; the jobs that the
-- scheduler runs; log lines, the audit log of other handlers than login and logout, tracing and
-- formatted sizes; the parser of syslog messages and their enrichment; the transports of
-- notifications; the messages of alert rules; the connection test of the directory; what agents
-- report and how install tokens are issued; the extraction of
-- log templates and the learning of precursors, integrations, other routers and the database layer.
pub mod Base
pub mod SharedState
pub mod RateLimit
pub mod Scheduler
pub mod Incidents
pub mod Correlation
pub mod Topology
pub mod Probes
pub mod Metrics
pub mod SelfCheck
pub mod Updater
pub mod Syslog
pub mod Notifications
pub mod HostCheck
pub mod AlertRules
pub mod Sampling
pub mod Csrf
pub mod LogIntelligence
pub mod IncidentApi
pub mod Predictor
pub mod Ldap
pub mod Login
pub mod Agents
