-- ===== src/Lib.antt =====
-- A model of the core of the Ledger Light backend: orders and payments, stock, the team of an
-- organization and its sessions, the access rules, and the paging of lists.
--
-- The backend is a NestJS application over a PostgreSQL database (Prisma) and Stripe. A request
-- passes two guards, which find the membership and its role and compare it with the permissions
-- that the route declares; a service then acts for an organization, seen through the locations of
-- the membership. The order service keeps orders, their items and their totals, and moves an order
-- through its statuses; on the way it calls the payment service, which keeps one payment for each
-- order, its attempts at Stripe, refunds, and the receipts of Stripe's webhooks. The inventory
-- service keeps the stock of each product at each location and the adjustments it comes from; the
-- product service calls it for an initial stock. The team service changes who belongs to an
-- organization, in which role and for which locations; the authentication service turns that into
-- tokens, which the guards read.
--
-- The parts, by folder:
--   Base      helpers: Boolean tests, lists, integers with a sign, tables of rows, errors.
--   Access    backend/src/common: permissions/*.ts (Permissions, Roles), guards/*.ts (Guards) and
--             organization/location-scope.ts (Scope).
--   Store     backend/prisma/schema.prisma: the rows (Rows); and calls on the database (Monad):
--             a call is a function Db → Result A × Db, an exception of Nest or Prisma is an Error,
--             and `$transaction` takes back what was written when it throws (Atomic).
--   Payment   backend/src/domain/payment: payment.utils.ts (Status), payment.service.ts (Queries,
--             Sync, Collect, Refund), and payment-webhook.controller.ts with the webhook handlers
--             of the service (Webhook). backend/src/infra/stripe/stripe.service.ts is a parameter
--             (Stripe): a record of four functions, of which nothing is assumed.
--   Order     backend/src/domain/order/order.service.ts: createOrder (Pricing, Create),
--             addOrderItem and deleteOrderItem (Items), getOrderById, updateOrder and
--             deleteOrder (Records), transitionStatus (Transition), and the permission check
--             of order.controller.ts.
--   Paging    reading a list page by page: inventory.service.ts paginateRows (Rows), and
--             backend/src/infra/prisma/prisma.service.ts: orders and cursors (Cursor),
--             paginateMany (Many). JSON, base64 and the database's reads are parameters.
--   Inventory backend/src/domain/inventory/inventory.service.ts: adjustments and levels, with the
--             ledger they form (Ledger, Upsert, Adjust, Refusal), and the reads (Snapshot).
--   Product   backend/src/domain/product/product.service.ts.
--   Location  backend/src/domain/location/location.service.ts.
--   Team      backend/src/domain/team/team.service.ts: what the operations share (Team), and the
--             operations (Members, Status, Invites); the owners that stay (Owners).
--   Auth      backend/src/domain/auth/auth.service.ts: login, refresh and logout.
--   Samples   rows for the tests; each Tests module computes and applies the theorems at them.
--
-- A definition has the name of the function it models, in snake case: initiateCardPayment is
-- initiate_card_payment. A part of a function that stands as a definition of its own says so.
--
-- Bounds and conventions: a table is the list of its rows, the newest first. Keys (UUIDs, keys of
-- Stripe) and times are natural numbers; the key of a new row is the next number not used, and
-- `new Date()` is an argument. Amounts and quantities are whole numbers of either sign without a
-- bound, where the source has JavaScript numbers and the database 32-bit integers. All definitions
-- are structural; only the client that reads all pages has fuel, one call more than there are
-- rows, which is enough for every way of paging here. A call runs from start to end without
-- another in between, but the operations that use several transactions keep them apart.
--
-- Random texts and the hashes that bcrypt makes are arguments of the calls that make them.
--
-- Not modelled: the columns that services only copy into replies (names, addresses), `updatedAt`,
-- HTTP, validation of request bodies, the signing of JWTs, and the check of Stripe's signature,
-- whose answer is an argument; the searches of lists (the conditions of getOrders, getLevels,
-- getProducts, getLocations, getMembers), inviteMember, the other services (customers, dashboard,
-- audit log), the frontend and the MCP server.
pub mod Base
pub mod Access
pub mod Store
pub mod Payment
pub mod Order
pub mod Paging
pub mod Inventory
pub mod Product
pub mod Team
pub mod Auth
pub mod Location
pub mod Samples
