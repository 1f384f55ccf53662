-- ===== src/Lib.antt =====
-- The backend of Flexi, a multi-tenant platform (apps/backend, packages/shared-types): authentication and
-- account management over one shared database, the onboarding of tenants, and the worker that changes the
-- tables which each tenant defines in a database schema of its own.
--
-- How the parts interact. A request passes the guard (apps/backend/src/modules/auth/guards), which builds
-- the caller from the access token and routes the request to the tenant's schema. The services of
-- modules/auth and modules/users then read and write the tables of prisma/schema.prisma, record what they
-- did in the audit trail, and hand messages to the mail transport. Changes of a tenant's own tables are jobs
-- that a queue gives to the worker of modules/dynamic-tables, which may run a job again after a failure.
--
-- How a tenant comes to be. A system operator asks for it; modules/tenants/tenants.service.ts keeps the
-- request as an attempt under an idempotency key and queues a job. The worker of modules/tenants runs the
-- lifecycle of provisioning.service.ts: it claims the attempt, inserts the tenant, creates and fills its
-- schema, makes the first administrator (first-admin.service.ts), mints and mails a setup link
-- (setup-link.service.ts), activates the tenant and writes the audit row. Each step records its outcome in
-- the attempt. A failed step is compensated: the links are revoked, the administrator removed, the schema
-- dropped, and the tenant marked; a timer of the worker aborts a run that takes too long and records that.
-- The administrator redeems the link, which sets the first password.
--
-- Which file models what (paths below apps/backend/src, unless they begin with packages or prisma):
--   Prelude: shared names, tests on numbers, lists and texts.
--   Exec: a method as a function from the world to a result and a world; what was written before a raise
--     stays written. Exec/Evolves has the rules for properties of every run, Exec/Outcome the inversions.
--   Store: the rows of prisma/schema.prisma, the request context (tenancy/tenant-context.ts) and the world.
--     Store/Rows: findFirst, findMany, count, updateMany and deleteMany as filters and updates of lists.
--     Store/Tables: those calls as actions, $transaction, the clock, and modules/auth/auth-audit.service.ts.
--     Store/Evolution: what no action undoes, as one preorder on worlds.
--   Tenancy: tenancy/sanitize-identifier.ts and tenancy/resolve-tenant-schema.ts.
--   Auth/Password, Auth/Duration, Auth/Email: validatePasswordStrength of packages/shared-types, lifetimes of
--     tokens, addresses.
--   Auth/Actors, Auth/Service: modules/auth/auth.service.ts. `refresh` is look_up_refresh_token,
--     claim_refresh_token and reissue, in the order of the code, cut where it waits for the database.
--   Auth/Permissions: modules/users/actor-permission.ts and guards/permissions.guard.ts.
--   Auth/Sessions: modules/auth/sessions.service.ts.
--   Auth/Reset: modules/auth/password-reset.service.ts. The delivery that the code does not wait for is an
--     action of its own, which a request returns.
--   Auth/Guard: guards/jwt-auth.guard.ts. Auth/Impersonation: modules/auth/impersonation.service.ts.
--   Users/Lifecycle: modules/users/account-lifecycle.service.ts. Users/Quota: user-quota.service.ts.
--   Users/Invites: modules/users/user-invite.service.ts, without the creation of a batch and the listing.
--   Requests: the requests of these services, and the parts of `refresh` and `resetPassword` that concurrent
--     requests interleave, served one after the other in any order.
--   DynamicTables: columns and the steps of an edit (executeStep of modules/dynamic-tables/ddl-worker.ts,
--     buildFieldEditSteps of dynamic-tables.service.ts); DynamicTables/Catalog and DynamicTables/Worker: the
--     metadata rows, the migration log and the two kinds of job.
--   Onboarding: attempts, outcomes of steps, compensations and setup tokens. Store/Setup: the calls on them.
--   Provisioning: modules/tenants/provisioning.service.ts, the attempt and its outcomes:
--     enqueueAcceptedAttempt, claimAttempt, updateAttemptSteps, upsertStepOutcome.
--     Provisioning/Payload, Provisioning/Identifier: readSafePayload with the validation of
--     packages/shared-types; createTenantId.
--     Provisioning/Steps: the steps and activation, over the services as an interface, Collaborators.
--     Provisioning/Compensation, Provisioning/Lifecycle: runCompensation; startLifecycle, finalizeAudit,
--     recordProvisioningTimeout, and the job of provisioning.worker.ts.
--     Provisioning/FirstAdmin, Provisioning/SetupLink: first-admin.service.ts and setup-link.service.ts.
--     Provisioning/Intake: createOnboardingAttempt and checkSlugAvailability of tenants.service.ts.
--     Provisioning/Kept, Recorded, Audited, Activated, Failed, Fence: what the services are assumed to leave
--     alone (Respects), and the proofs on steps, the audit row, activation, failure and timeouts.
--   Examples: a concrete platform and deployment, and runs on it.
--
-- Conventions and bounds. The clock, random values, SHA-256, bcrypt, the signing of tokens, toLowerCase and
-- the mail transport are fields of a record (Store/Platform), as is whether the insert of an audit row
-- succeeds; the assignment casts of the database and the timeouts of its transactions are parameters of
-- DynamicTables. The services behind the steps of provisioning are a record of actions, whose laws say
-- which tables they leave alone; the answer of the queue, whether a raw query that violates a unique key is
-- reported as such, and whether a reading sees the row of a concurrent request are parameters. The signal of
-- an abort is a function of the time of its reading; what an aborted run still does before it looks at its
-- signal is run before the timeout is recorded. Times are milliseconds. Numbers are exact: the code's are
-- below 2 ^ 53. A negative seat limit is `none`. Of rows created at the same time, findFirst by descending
-- time takes the earlier row. A filter whose value is undefined is left out, as the data client does. A
-- column of the model holds a cell per row.
-- All loops are structural recursion on lists; the printing of a number runs on fuel, the number's successor,
-- which is enough for its digits.
--
-- Not modelled: the HTTP layer and its validation of bodies; isolation of concurrent transactions beyond the
-- cuts named above; the formatting of times and of messages; the creation of invites, users administration,
-- deletion, tenant settings and self-registration; the listing of tenants, the view of an attempt and the
-- statements that seed a schema; failures of the lifecycle's own database calls, but for the unique keys of a
-- tenant; rows and queries of dynamic tables; the frontend. Of the rows, the columns that no modelled
-- operation reads or writes are left out.
pub mod Prelude
pub mod Exec
pub mod Store
pub mod Onboarding
pub mod Tenancy
pub mod Provisioning
pub mod DynamicTables
pub mod Auth
pub mod Users
pub mod Requests
pub mod Examples
