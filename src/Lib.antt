-- ===== src/Lib.antt =====
-- Verification library of the payment gateway, the TypeScript program under src/. It models the stores
-- and guards that decide who is paid, who may act and for how long, as functions on explicit states.
--
-- How it reads. A store is a record of its maps or tables; an operation takes the store and returns it
-- with an answer, a thrown error being `err`. What a call takes from outside, the time, random bytes,
-- UUIDs and hashes, is an argument. Times are milliseconds unless a name says seconds. An optional
-- value is an `Option`, and `value || other` is written with `truthy`, for which the empty text is
-- absent. A history is a relation `Reach` of steps, one constructor for each operation that changes the
-- store. Every loop of the modelled code but one runs over a finite collection and is recursion on it. The
-- search for a free service code counts up without a bound in the source; it runs on fuel, the number of
-- services, which is enough since its candidates are different texts.
--
-- Prelude holds the shared notions: tests on native numbers, searches and sets (Lists), results
-- (Results), JavaScript maps (Dict), texts (Text) and JSON values (Json). Sql holds the statements that
-- the stores send to a table. Environments holds sandbox and live.
--
-- The parts, each with the file of the repository that it models:
-- PaymentIntents      src/services/paymentIntentStore.ts and the records of src/types.ts: creation under
--   an idempotency key and a reference, and the updates of an intent. `list` is left out.
-- WebhookDeliveries   src/services/webhookDeliveryStore.ts: the log of deliveries and the numbering of
--   replays, with the record that the replay route of src/server.ts writes. The log's file is left out.
-- CoreEvents          the handler of Core's payment results in src/server.ts, which calls the two parts
--   above, cut at the wait for the webhook so that two events can interleave.
-- RequestGuard        src/security/financialRequestGuard.ts: timestamps, nonces and rates. The numbers
--   of a configuration are natural numbers.
-- RefreshTokens       src/services/refreshTokenStore.ts in memory mode: rotation, families, revocation.
-- RefreshTables       the same file in Postgres mode, on two tables.
-- OAuth               src/services/oauthAuthorizationStore.ts: authorization requests and codes, the two
--   tables as lists of rows. A vault that opens what it sealed stands for
--   src/security/secretVaultCrypto.ts.
-- SecretVault         src/security/secretVaultCrypto.ts: secrets sealed under the configured key.
-- DeveloperPortal     src/services/developerPortalStore.ts in memory mode, with the records of
--   src/contracts/developerPortalContract.ts: applications, services, scopes, domains, API keys and webhook
--   secrets, one file for each. Applications, Scopes, Domains, Ownership, Keys and WebhookSecrets change
--   the services; Soundness says what each change keeps and History puts the calls in sequence. The
--   parsing of URLs, the look for a proof of a domain, the hashes and the vault are parameters.
-- PortalAccess        src/services/portalAccessStore.ts: signing in to the portal with one-time and
--   recovery codes, locks, and sessions. The digits of a one-time code, the text of a session's token and the
--   vault of secrets are parameters, and a stored secret is one that opens.
-- PushedRequests      src/services/pushedAuthorizationRequestStore.ts: both modes.
-- Consents            src/services/consentReceiptStore.ts in memory mode, with the records of
--   src/contracts/consentCenterContract.ts. The schema accepts what the store wrote.
-- TokenExchange       src/services/financialTokenExchange.ts, which reads Consents, and the claims of
--   src/security/financialAccessToken.ts. The verifier of identities is a parameter.
-- Tokens              src/security/serviceAccessToken.ts and the texts of src/security/financialAccessToken.ts, with
--   the memory mode of src/services/serviceAccessTokenRevocationStore.ts. Writing and reading claims as
--   base64url JSON and the HMAC are parameters.
-- ServiceConsents     src/services/serviceConsentGuard.ts, which asks Consents, and
--   src/services/serviceScopePolicy.ts. The portal's grants are a parameter.
-- ScopeCatalog        src/services/consentScopeCatalog.ts: the texts and risks of scopes.
--
-- Not modelled: the Postgres mode of consents, the other routes of src/server.ts, the tables behind
-- the developer portal, the enrollment, users, invitations, password resets and audit trail of the
-- portal access store, metering, billing, incidents, messaging, signatures of webhooks, the table of
-- revoked tokens, proofs of possession, the provider adapters and protocols, configuration, network
-- clients, the SDKs and the examples.
pub mod Prelude
pub mod Environments
pub mod Sql
pub mod PaymentIntents
pub mod WebhookDeliveries
pub mod CoreEvents
pub mod RequestGuard
pub mod RefreshTokens
pub mod RefreshTables
pub mod SecretVault
pub mod OAuth
pub mod DeveloperPortal
pub mod Consents
pub mod TokenExchange
pub mod Tokens
pub mod PortalAccess
pub mod PushedRequests
pub mod ServiceConsents
pub mod ScopeCatalog
