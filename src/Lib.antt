-- ===== src/Lib.antt =====
-- A model of the hosting platform's own logic, and theorems about it. The control plane keeps its
-- resources in PostgreSQL and provisions them by Temporal workflows, whose activities run on the
-- core database and on the agents of the nodes; the API validates what it is given before a row is
-- written.
--
-- The files and the code:
--   Common       numbers, lists, texts as lists of bytes, decimal numerals, Go's (value, error).
--   Workflow     internal/workflow: helpers.go and incident_webhook.go (Helpers), database.go and
--                database_user.go (Database), valkey_instance.go (Valkey), valkey_user.go
--                (ValkeyUser), s3_bucket.go and s3_access_key.go (S3), email_account.go,
--                email_alias.go, email_forward.go and email_autoreply.go (Email), ssh_key.go (SshKey),
--                wireguard_peer.go (WireGuardPeer), backup.go (Backup), cron_job.go (CronJob),
--                migrate_database.go and migrate_valkey.go (Migration), and the loops over nodes that
--                they share (Nodes). Temporal holds what they run on: the
--                status constants of internal/model/status.go, the rows that UpdateResourceStatus of
--                internal/activity/core_db.go writes, the calls and their results; Resources, Params
--                and Calls are its types. Guards, Nodes/Rules, Lifecycle, Email/Lifecycles,
--                Provisioning, Reach, Migration/InPlace and FanOut are proofs.
--   Zone         internal/activity/powerdns_db.go (PowerDns), internal/activity/dns.go (Auto, Email,
--                Override, Retroactive) and internal/workflow/zone_record.go (Records), over the
--                tables of both databases with their foreign keys (Stores); Runs, Find, Served,
--                Prescribed, Restored, Rows,
--                Custom, Deleting, Overridden, Hostnames, Dropping, Refines,
--                Keeps, Untouched and Platform are proofs.
--   Dns          internal/api/request/dns_validation.go: Hostname, Content, Record; Labels, Priority
--                and Accepts are proofs.
--   Ula          internal/core/ula.go (Hex, Address) and the addresses of
--                internal/core/wireguard_peer.go (WireGuard); Distinct is proofs.
--   Agent        internal/agent/tenant_ula.go: TenantUla, Routes, Egress, over commands (Shell);
--                Wanted has the command lines written out for comparison; Written, Runs, Applied,
--                Confined, Sound and Services are proofs.
--   Incident     internal/core/incident.go (Service) over the tables and constraints of
--                migrations/core/00041_incidents.sql (Tables); the claim of an incident of
--                internal/activity/agent.go (Claim); Closing, Dedupe, Growing and Succeeds are
--                proofs.
--   Access       internal/api/middleware/authz.go, and the brand condition of the listings in
--                internal/core/tenant.go and internal/core/zone.go; Brands is proofs.
--   Investigation  internal/activity/agent.go (Hints, Turns) and internal/workflow/incident_agent.go:
--                the queue with its groups (Queue) and the investigating workflow (Supervision);
--                Grouping, Followers, Terminal and Outcomes are proofs.
--   Stalwart     internal/stalwart: id.go (PrincipalId) and sieve.go (Sieve), with a reader of Sieve
--                scripts to check the writer against (Reader); Scripts is proofs.
--   Tests        the theorems at concrete inputs.
--
-- Functions have the names of the source in snake case: CreateDatabaseWorkflow is
-- create_database_workflow, SyncEgressRules is sync_egress_rules. A workflow takes a World (the
-- number of calls made, the status rows, the calls) to a result and a World. An operation of the
-- agent takes a Shell (the commands run, and what the one run of ensureTable gave) to a result and
-- a Shell. An operation of the incident service takes a Db (the tables, the numbers of statements
-- sent and identifiers drawn) to a result and a Db.
--
-- An activity on zones takes the tables of the core database and of PowerDNS's (Stores) and the
-- number of statements sent to an outcome with both, and a workflow of zone records is run on the
-- same tables, each activity up to three times. A deleted row of zone_records is removed, since
-- UpdateResourceStatus does so. An address or id that the code leaves empty is the empty text.
--
-- The Ula addresses tie the parts together: the workflows hand a node's shard index to the agent,
-- which computes the address with compute_tenant_ula, and the WireGuard service computes addresses
-- for the configuration of a client.
--
-- A run of the incident queue gives, for each group, the claims and the investigations it starts; a
-- group without incidents, on which the code would panic, gives none.
--
-- An investigation takes a Conversation (the messages, the tool calls, the events recorded, the
-- number of calls of the model) through its turns, of which maxTurns are left at the start.
--
-- What is an argument: the results of activities and child workflows, and the order of parallel
-- calls (Env); what a command prints and whether it fails (Host); whether a statement fails, the
-- clock, the identifiers and LIKE (Server); net.ParseIP; the JSON of a shard's configuration; the text of a date; the
-- language model, its tools and the operators' messages (Agents). Each result is a function of the
-- number of calls made so far, so it may differ from call to call. A statement that fails changes
-- nothing, nor does an activity, except on zones, where an activity leaves what its statements
-- before the failing one did. A child workflow changes no row of its parent. Parallel calls of a
-- fan-out run one after another in an arbitrary order.
--
-- Left out: Temporal's timeouts, its retries except for zone records, logging, the reading of a
-- result's rows breaking off, fields of records that the modelled code does not read. Indices, user
-- ids and ports are not negative, times are numbers, and the white space of strings.Fields is
-- ASCII. The digits of hex and decimal numerals take the number itself as fuel, which is enough
-- since each step divides it. Errors of the DNS validation are kinds in place of texts. Not
-- modelled at all: the other workflows, activities and services, the API's routing, the agents'
-- configuration files, the command line, the user interfaces and the deployment.
pub mod Common
pub mod Workflow
pub mod Zone
pub mod Dns
pub mod Ula
pub mod Agent
pub mod Incident
pub mod Access
pub mod Stalwart
pub mod Investigation
pub mod Tests
