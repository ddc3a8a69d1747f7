-- ===== src/Lib.antt =====
-- A model of the core of the DUKA backend, a NestJS service (src/modules, src/common, src/shared) over
-- a PostgreSQL database that the Prisma client reads and writes.
--
-- How it is modelled. A service's method is an `Action` (Prelude/Actions.antt): it takes a state, the
-- tables that it uses, and gives a result or the exception it throws together with the state; what was
-- written before a throw stays written, outside a `$transaction`. The database client is a parameter
-- (Database.antt), with its documented behaviour as hypotheses and a concrete client that has it. A
-- table is the list of its rows in the order in which the database returns them. Ids and other opaque
-- texts are numbers, times are milliseconds, and ids that the database draws and the present time are
-- arguments. Awaited calls of one request run in order; requests run one after the other.
--
-- The parts:
-- - Prelude: shared helpers. Tests (Boolean tests), Lists (rows), Actions, Invariants (a rule for each
--   way to put a request together), Int (signed numbers).
-- - Commerce/Inventory: "Inventory Management" of src/modules/commerce/commerce.service.ts, stock and
--   reservations, quantities being signed as in the source.
-- - Commerce/Orders: updateOrderStatus and the tax rules of the same file, of whose
--   body the columns tenantId and isDefault are kept.
-- - Commerce/Cart: the cart, its coupons and the checkout of the same file, which call the inventory.
--   Quantities and totals are signed; money is in units of which every price and every fixed discount has
--   a multiple of 100, so that a whole percentage of an amount is whole; the prices of products and
--   variants are a function.
-- - Publishing: src/modules/publishing/publishing.service.ts, from a submission (Candidate) with its
--   version (Version) to its approval (Activation, with invalidate of
--   src/shared/releases/active-release.service.ts), and src/modules/admin/merchant-app-review.service.ts.
--   State has the rows; the manifest's validation, its compatibility test and its checksum, and what
--   the language prints for numbers beyond 2 ^ 53 - 1, are a parameter, `Services`.
-- - Booking: src/modules/booking/booking.service.ts: creating bookings (Capacity), their state machine
--   and the waiting list (Lifecycle), refunds (Refunds) and free slots (Slots). Prices are whole
--   hundredths and the tiers' numbers natural. The day that slots are asked for is given by its midnight
--   and its weekday; a day has 24 hours. The loop over the slots has as fuel one more than the minute at
--   which the schedule ends, which is enough where the service takes at least a minute.
-- - Access: src/modules/rbac/rbac.service.ts and src/common/guards/rbac.guard.ts (Rbac), the API quotas
--   of src/modules/platform-admin/platform-admin.service.ts and src/common/guards/api-quota.guard.ts
--   (Quota), where the increments that the guard fires end at any later time, each as one step;
--   src/modules/admin/platform-role.guard.ts (Platform) and src/modules/admin/admin-invite.service.ts
--   (Invites), where the string methods are a parameter, `Texts`, and role names are numbers.
-- - Cache: src/common/redis/redis.service.ts with its in-memory store, which it uses where no server is
--   configured; keys and values are those of each client.
-- - Auth: src/modules/auth/auth.service.ts and src/modules/iam/password.service.ts: Sessions (login,
--   refresh, logout), Otp (one-time codes in the cache), Register (the registration of an invited
--   platform user, over Access/Invites) and Social (Google and Apple). The password, token and identity
--   libraries are parameters. Requests puts every request of the service behind one type; Steps and
--   Answers show that what the steps keep every request keeps. A JSON text that the service wrote is
--   its value, so the branch for a text that does not parse is left out there. Refresh tokens live for
--   seven days of 24 hours.
-- - Publishing/Serving: src/shared/releases/active-release.service.ts over the tables of Publishing and
--   the cache; the deletions that an approval asks for are made before it returns.
-- - Compatibility: src/shared/compatibility: the contract (Contract), the two traversals of a manifest
--   (Walk), the report (Evaluate) and the assets (Assets). A manifest is a JSON tree.
-- - Feed: src/modules/feed/feed.service.ts, with the media of a post in Media. A plan's
--   limit is a natural number; the message of a refused item leaves its index out; counters, likes and
--   lists of posts are left out.
-- - Forms: src/modules/forms/forms.service.ts, without the rows of forms themselves. The language's
--   regular expressions are a parameter, numbers in answers are natural, and the list of complaints is not part of the error.
-- - Payments: src/modules/payments/payments.service.ts. The providers' adapters are a parameter;
--   amounts are whole numbers of the smallest unit.
--
-- Not modelled: the catalogue of commerce; read-only queries and their
-- pages; delivery of events, mails and notifications; the signup of a merchant and the
-- desk categories of sign-ins; fallbacks for a database without a column; the controllers, which
-- only pass arguments on; and the modules that are plain row operations or calls of other services.
pub mod Prelude
pub mod Database
pub mod Cache
pub mod Auth
pub mod Commerce
pub mod Publishing
pub mod Booking
pub mod Access
pub mod Payments
pub mod Feed
pub mod Forms
pub mod Compatibility
