-- ===== src/Lib.antt =====
-- The payment gateway of pkg/service and internal: players buy items with regional payment
-- providers, and AGS (AccelByte Gaming Services) grants them.
--
-- The parts and their interplay. A transaction (internal/model) is a document of the store
-- (internal/store). A webhook of a provider (pkg/service/webhook.go), a job of the scheduler
-- (scheduler.go), a sync by a player or an administrator (public.go, admin.go,
-- sync_reconciler.go), a cancellation (cancel.go, public.go) and a refund (admin.go, refund.go)
-- read and write it there, and call the provider (internal/adapter) and AGS in between. They do
-- not know of each other: the store's operations, each of which holds the lock, are what keeps
-- them apart.
--
-- Which file models which part:
--   Prelude         shared names, tests, lists, integers, association lists, package strings, and the
--                   pair of a value and an error
--   Model           internal/model/transaction.go
--   Store           internal/store/store.go and internal/store/memory/memory.go. Rows: what an
--                   operation does to its document. Memory: the operations over the map.
--                   Listing: those over all documents. Ops: the writing operations as data, and
--                   runs of them. The other children state laws.
--   Adapter         internal/adapter/provider.go, registry.go, sync.go. Effects: the calls to
--                   the outside, as entries of a history. Http and Hex: what the adapters use of
--                   net/http and encoding/hex
--   Adapter.Xendit  internal/adapter/xendit: the messages and the parameters, Calls its requests, Sync,
--                   Merges, Refunds and Records SyncTransactionStatus, Settings config.go
--   Adapter.Komoju  internal/adapter/komoju, in the same parts, with Amounts its amounts
--   Adapter.Generic internal/adapter/generic, and in Settings its part of internal/config/config.go.
--                   Each of the three ends in a Provider, an instance of the interface that the
--                   services take
--   Service.World   the state (store, history of calls, the cooldown map), the environment,
--                   and the action monad; fields of internal/config/config.go
--   Service.Reply   replies, and the views of a transaction (pkg/service/payment.go)
--   Service.Handler actions that stop at the first failure, and the steps they begin with
--   Service.*       one file for one file of pkg/service, its functions under the same names in
--                   snake case: HandleWebhook is handle_webhook. A part of a long function is a
--                   function of its own with the clauses of the branch that it stands for.
--   Service.Payment pkg/service/payment.go: the parent a payment for an existing transaction, Create
--                   CreatePaymentIntent and CreateCheckoutTransaction, Item the item's price
--   Service.Keeps   rules by which a property of the store is kept by all services
--   Service.Calls   the requests that act on a transaction, those that create one included, webhooks
--                   and jobs as data, and runs of them; lists, which only read, are left out
--   Fulfillment     internal/fulfillment/fulfillment.go: the grant, the search of the history and the
--                   reversal, as the calls of AGS that they make
--   DocDb           internal/store/docdb/docdb.go, as the calls of the MongoDB driver. Query: the
--                   filters and updates, and the driver. Listing: the reads of many documents.
--                   Documented: what the driver's manual says of them, as hypotheses. The other
--                   children compare the store with the in-memory one.
--   Session         internal/checkout/session.go
--   Tests           the theorems at concrete inputs
--
-- How the model reads the code. A handler is a function from a world to a reply and a world.
-- Code outside of the repository is a parameter: the registered providers, FulfillUserItem and
-- ReverseFulfillment, the clock and the claims of a bearer token. A provider and AGS may answer
-- anything, and differently each time: what they return is a function of the history of all
-- calls before. time.Time is a number of nanoseconds, int32 and int64 are integers with their
-- wrap-around written out where the code adds or multiplies. A map is an association list; where
-- Go's order of a map is free, the list's order stands for it. Two functions need fuel:
-- all_pages, which follows the cursors of a listing, and find_from, which follows the pages of a
-- fulfillment history; each takes the steps that its theorem names. An outage of the document
-- database is an error of the driver; the comparison with the in-memory store assumes that each
-- call is answered.
--
-- Not modelled: the checkout pages, the loading of internal/config/config.go but for the generic
-- providers, the indexes of the database, the server with its gateway and interceptors, logging;
-- and the interleaving of two handlers inside each other, except in the theorems on runs of
-- store operations, which hold for operations of any callers in any order. The client of AGS,
-- the item service, net/url and the generator of ids are parameters; so are, for the adapters,
-- the HTTP client, the SDK of Xendit, JSON, templates, HMAC, currencies and the rounding of
-- float64.
pub mod Prelude
pub mod Model
pub mod Store
pub mod Fulfillment
pub mod DocDb
pub mod Session
pub mod Adapter
pub mod Service
pub mod Tests
