-- ===== src/Lib.antt =====
-- The announcement tool: publishers write announcements, critical ones need a second publisher, and a
-- worker fans each published announcement out to the channels and subscribers that it is for. This
-- library models the operations of the program on its database and proves what they keep.
--
-- How the parts interact. The middleware decides whom a request comes from, and the admin actions
-- refuse whoever is no publisher. They call the operations of src/core/announcements.ts. Those that
-- publish call `enqueueDeliveries` of src/core/outbox.ts in the same transaction, which inserts one
-- row of `delivery_ledger` for each target: a row of `channel_settings` or a verified row of
-- `subscriptions` that matches. The worker's tick sends the scheduled announcements that are due
-- (`publishDueScheduled`) and then tries the due rows of the ledger (`runFanoutOnce` of
-- src/worker/fanout.ts), each once, with a growing delay after a failure and five attempts at most.
--
-- The files:
--   Common: Boolean tests, lists, text as UTF-16 units, results of code that may throw, sorting,
--     tables with keys, updates of rows, and calendar dates.
--   Types: the types of src/core/types.ts, and their equality tests.
--   Store: the tables as records of columns. `Db` is the whole database; `Row` is a row of
--     `announcements`. A JSON detail of `audit_log` is a constructor with its values.
--   Subscriptions: the filters of src/core/subscriptions.ts (`matchesSubscription`).
--   EnabledChannels: src/core/enabled-channels.ts (`parseEnabledChannels`, `isChannelEnabled`).
--   Slug: src/core/slug.ts (`makeSlug`, `normalizeSlug`, `slugError`), with Length and
--     Shape on what they return.
--   Outbox: src/core/outbox.ts. Outbox.Targets is about which destinations there are, Outbox.Ledger
--     about the primary key of the ledger, Outbox.Enqueue about `enqueueDeliveries`.
--   Announcements: src/core/announcements.ts. Error has the errors that are thrown, Table the row
--     selects and updates, Drafts the drafts, Publish the requests, the confirmations and the
--     scheduler, Schedule the schedules, Review the withdrawals and rejections. The other modules are
--     proofs: Invariant states what holds between operations, Soundness, Sending, Drafting and
--     Scheduler show it of each operation, Kept and Keeping what no operation changes, Naming is about
--     the slug of a new announcement, Timely about a row whose time has come, and History about any
--     sequence of calls.
--   Fanout: src/worker/fanout.ts. Machine is about the life of one row, Tried about one round of
--     the loop and the worlds between the rounds, Rounds about the loop, Batch about a whole pass, and Tables about what it leaves alone.
--   Subscriptions.Table: the operations of src/core/subscriptions.ts on rows, with Rows on their keys.
--     Signup models src/core/subscribe-flow.ts (`startEmailSubscription`), with what other requests do
--     between its statements as functions; Untrusted and Trust say what a sign-up may change. Confirming models
--     `confirmSubscription` and `confirmFilterChange`, with Links and Opening on the first, and
--     Unsubscribing src/core/tokens-flow.ts.
--   RateLimit: src/core/rate-limit.ts; RateLimit.Windows counts the calls that are allowed.
--   SafeUrl: src/core/safe-url.ts, the forbidden ranges and the groups of an address of version 6.
--     Parsing models `v6Groups`, Deliverable `isForbiddenHostname` and `resolveDeliverableUrl`. Ranges
--     compares the table with the bytes of an address, Embedded is about addresses of version 4 inside
--     those of version 6, and Vetted about the URLs that are not refused.
--   Webhooks: src/core/webhook-flow.ts (`registerWebhook`, `sendWebhookTest`). Secrets is about calls
--     without the secret of a registration, Requests about what is sent, and where to.
--   Health: src/core/health.ts and src/core/recipients.ts. Alerts: src/core/alerts.ts; Once is about the
--     rows of `alert_state`, and History about any sequence of calls of `dispatchHealthAlerts`.
--   Identity: src/core/identity.ts and src/web/client-ip.ts. Sources is about which headers are trusted;
--     Gate models src/web/admin-gate.ts, the start check and instrumentation.ts (`register`), and
--     Starting is about who is let in and which configurations start.
--   Guard: src/core/production-guard.ts. Checks and Safe compare `checkEnvironment` with a description of
--     the safe configurations.
--   Signin: src/core/auth0-claims.ts, src/core/auth0-verify.ts and src/core/session.ts, over a library
--     of tokens (`Jose`). Middleware models middleware.ts and src/web/csp.ts; Sessions is about the
--     cookie, and Forwarded about the identity that a page sees behind the middleware.
--   Dates: src/core/datetime.ts (`utcInputToIso`). Forms: app/admin/input-from-form.ts, with src/core/text.ts
--     and src/core/roles.ts.
--   Admin: the actions of app/admin/actions.ts on announcements. Acting says which operation each
--     calls; Authorized joins them with the middleware and with the histories of Announcements.
--   Worker: src/worker/tick.ts and src/worker/adapters.ts. Request models src/core/tick-auth.ts and
--     netlify/functions/tick-background.ts; Channels is about the adapters that are built, Ticks about a
--     pass, and Served about the requests that run one.
--   Mentions: src/core/discord-mentions.ts. Erasing, Spaces and Squeezing are about the strip of the
--     prefix, Line and Allowed about the roles of a line.
--   Rendering: src/core/public-base-url.ts and the Markdown text of src/core/render.ts.
--   Delivery: src/adapters/. Notes and Publishing model src/adapters/discord-publish.ts, which Redacting,
--     Hiding and Secrecy are about; Discord models src/adapters/discord.ts, which Posting is about.
--   Database: src/db/connect.ts. Tls is about the options that are accepted, Layout, Lines and Pem
--     about `normalizePem`.
--   Tests: runs on small data, with the theorems applied where their hypotheses hold.
--
-- Conventions. A transaction that throws is rolled back, so an error carries no state. `now()` and
-- `Date.now()` are one argument `now`, in milliseconds; identifiers and tokens that the program draws
-- at random are arguments. `for update skip locked` skips the rows that a predicate `locked` names, so
-- a theorem for every predicate holds for every interleaving of two workers. `toLowerCase` is that of
-- ASCII letters. The schema of src/core/validate.ts and, in a pass of the worker, the adapters of
-- the channels are parameters: a Boolean test, and functions on a world of their own.
-- Recursion is on the lists, and on the rounds of the loops that the source bounds (twenty in
-- `createDraft`, two in a crosspost). The loops over a text, of `stripRoleMentions` and of the blocks of a
-- certificate, have its length as fuel: each round shortens what is left.
-- The loops of the compose form have the number of its entries: each round finds an entry of its own.
--
-- Not modelled: the pages under app/, the rendering of messages but for Markdown, the adapters
-- but for that of Discord, and the HTTP calls of the login. They are input and output around the
-- operations above, or calls of third-party services. The queries of the admin pages are read-only.
pub mod Common
pub mod Types
pub mod Store
pub mod Subscriptions
pub mod EnabledChannels
pub mod Outbox
pub mod Slug
pub mod Announcements
pub mod Fanout
pub mod RateLimit
pub mod SafeUrl
pub mod Webhooks
pub mod Health
pub mod Alerts
pub mod Identity
pub mod Guard
pub mod Signin
pub mod Dates
pub mod Forms
pub mod Admin
pub mod Database
pub mod Worker
pub mod Mentions
pub mod Delivery
pub mod Rendering
pub mod Tests
