-- ===== src/Lib.antt =====
-- kippu-api: primary sales of tickets, the organiser's operations that share their accounting, and
-- the accounts, gate checks, sponsorship and ledger reader around them.
--
-- Kippu sells tickets that an organiser's authority signs for and a ledger (@ticketto/sdk) issues.
-- A buyer begins a checkout, links a holder account to it, places a hold, and pays for the hold at a
-- payment provider; a verified payment takes the hold's place and has the ticket issued. Holds,
-- payments, granted issuances and capacity decreases of one event all count against the same
-- capacity, quotas and seats. Sealing, finishing or cancelling an event closes its sales first, and
-- a cancelled event's tickets are refunded; a finish can also be scheduled. Organisers, operators,
-- holders and reviewers sign in to sessions; an operator checks in at a gate under a grant, and
-- reports admissions. A reader copies the ledger's log to the store, and the relay decides from
-- that copy which signed inputs it sponsors. An organiser asks for a higher capacity with a proof
-- that a reviewer decides.
--
-- Files and the code they model (paths from the repository's root):
--   Base        lists as tables, Boolean tests on numbers, and how an UPDATE changes a count
--   Store       the tables (migrations), the ledger's answers, the errors of src/authority/errors.ts,
--               transactions (`inTransaction` of src/sales/audit.ts), and the lemmas that carry a
--               property of the store through an operation (Store/Keeping)
--   Sales/Allocation    src/sales/allocation.ts (allocationCounts, capacityHasRoom, …)
--   Sales/OnSale        src/sales/on-sale.ts
--   Sales/Seats         src/events/seats.ts (assertFree)
--   Sales/Audit         src/sales/audit.ts (recordCheckoutStep)
--   Sales/Holds         src/sales/holds.ts (place, extend, release, lapseExpired)
--   Sales/Lifetime      the same operations as steps on the store
--   Sales/Payment       src/sales/payment.ts: Take is takePlace, Issue is issue and reconcile, Pay is
--                       pay and cancel, Release is releaseAll, reopenSales, sweep and paymentWebhook
--   Sales/Checkout      src/sales/checkout.ts: Begin is beginCheckout, checkout and hold, Link is
--                       linkCheckout, confirmLink and discardLink
--   Sales/CancellationRefunds   src/sales/cancellation-refunds.ts
--   Events/Ownership    src/events/ownership.ts
--   Events/Capacity     src/events/capacity.ts and canDecreaseCapacity of
--                       src/sales/organiser-actions.ts
--   Events/Status       src/events/status.ts; Actions puts the sale actions of
--                       src/sales/organiser-actions.ts together
--   Events/Issuance     src/events/issuance.ts (reserve, and the issuance around it)
--   Events/PassWindow   src/events/pass-window.ts (get, set)
--   Events/FinishSchedule   src/events/finish-schedule.ts
--   Accounts/Email, Sessions, Organisers, Holders   src/auth/service.ts: normaliseEmail and the
--                       patterns; sessions and who they stand for; organiser sign-up and sign-in,
--                       and enrolment codes; the link of a holder
--   Accounts/Reviewers  src/reviewers/service.ts
--   Accounts/Operators  src/operators/service.ts; Accounts/Reports src/operators/reports.ts
--   Accounts/Steps      all of these calls, one after another, on one store (Accounts/Rows)
--   Derived/Pages       src/derived/admission-flags.ts (reportsFor)
--   Derived/Reader      src/derived/reader.ts (step, catchUp)
--   Sponsor/Entitlements   src/sponsor/entitlements.ts
--   Proofs              src/proofs/service.ts
--   Examples            concrete runs
--
-- The state is a record of tables (Store/Rows); an operation is a function from the store to an
-- outcome, a value or an exception, with the store it leaves (Store/Monad); the sales, the accounts,
-- the schedules, the capacity requests, the copy of the log and the sponsored registrations are
-- stores of their own, since no modelled operation writes two of them, but for a scheduled finish,
-- whose transition is a parameter. A transaction is one step, since the advisory locks of src/sales/allocation.ts put those of one event one after
-- another, and an exception rolls it back. What is counted as taken (Sales/Allocation/Taken) is
-- stated apart from the code's own counts: live holds and issuances in flight of an event, of a
-- class, or of a seat. Ids, accounts, assets and texts that are only compared are numbers; readings
-- of the clock and made-up ids are arguments; amounts and times are unbounded numbers.
--
-- Parameters: the ledger's reads, the ticket id that the profile derives for a seat, the payment
-- provider, hashes and tokens, the normal form of a designation, and what became of a write that was
-- signed and submitted. Each answers the same while one operation runs. Of the accounts they are
-- WebAuthn's verification, the profile's proof of control, and JavaScript's trim, toLowerCase and
-- white space; of the reader, the log and the projections; of the entitlements, the profile and the
-- reads of the derived copy; of the schedules, the transition of src/events/status.ts, the audit
-- log, the closures, the run locks, and the clock where a run is recorded; of the capacity proofs, what
-- became of the artefact's check and storage and of the signed write.
--
-- Of the tables' constraints the model has those that a modelled call can run into: the keys and
-- unique indexes that an INSERT names in ON CONFLICT or whose violation the code catches, and, where a
-- payment is settled, holds_ended, the CHECKs on amounts, NOT NULL, the keys of face_values and the
-- foreign keys of face_values and refund_entitlements (migrations 0020 and 0021). The other
-- constraints are left out: no theorem says that a call which they could refuse ends well.
--
-- The loops run over the rows they read; recording refunds is tried 3 times, as in
-- src/events/status.ts. Reading reports by pages and catching up with the log run on fuel: one more
-- than there are reports, or records, is enough, and Derived.Pages and Derived.Reader.CatchUp prove
-- that the result is then there.
--
-- Not modelled: error texts and the JSON detail of audit rows; timers, HTTP routers and wiring; key
-- management and signing; the projections and queries of the derived copy; metadata storage; the
-- sponsorship relay; classes, zones, sale assets and invitations; the check of a
-- proof's artefact (src/proofs/artefacts.ts); the audit log.
pub mod Base
pub mod Store
pub mod Sales
pub mod Events
pub mod Accounts
pub mod Derived
pub mod Sponsor
pub mod Proofs
pub mod Examples
