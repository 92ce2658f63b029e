-- ===== src/Lib.antt =====
-- Orders between clients and building companies: the rules of an order's life as the repository keeps
-- them, and what they guarantee.
--
-- The repository is a server (backend/, Nest and Prisma over PostgreSQL), an interface (frontend/, React)
-- and a package that both use (shared/). An order is placed by a client, companies offer their terms, the
-- client accepts one offer, and the work is handed in, confirmed or sent back. Every change of an order's
-- status goes through one machine, which decides from the order's status and an event what happens, and
-- one service, which carries the decision out in a transaction: it locks the order's row, finds the offer
-- that the event is about, asks the machine, writes the offers, the order and the notifications.
--
-- Where the parts are:
--   Base, Errors            lists, tests, maps and the exceptions, as values
--   Shared                  shared/src: enums, the rules of offers and orders, the table of events, dates
--   Store                   backend/prisma/schema.prisma, the queries of the program over its tables, and
--                           transactions; notifications and how they replace each other
--   Common                  backend/src/common: the queue of an order, the semaphore, the places of
--                           uploads, the window of requests, identifiers, pages
--   Orders.Machine          backend/src/modules/orders/order-state-machine.ts
--   Orders.Transition       backend/src/modules/orders/order-transition.service.ts
--   Orders.View             backend/src/modules/orders/order-view.ts
--   Orders.Detail, Service  backend/src/modules/orders/orders.service.ts, order-search.ts
--   Orders.Workflow         backend/src/modules/orders/order-workflow.service.ts, inside its transactions
--   Orders.Actions          its routes: the transactions, the uploads and the broadcasts in their order
--   Files                   backend/src/modules/files/file-quota.ts, document-scope.ts, files.service.ts
--                           (Uploads, Attach) and its access (Access)
--   Offers                  backend/src/modules/offers: available-orders.ts, offers.service.ts
--   Auth                    backend/src/modules/auth, backend/src/common/guards
--   Interface               frontend/src/lib: what is shown of an order, the buttons, redirects, dialogs
--   Realtime                backend/src/modules/realtime: realtime-events.ts (Events), realtime.service.ts
--                           (Actions), order.gateway.ts (Gateway), shared/src/realtime.ts
--   Notifications           backend/src/modules/notifications/notifications.service.ts
--   Users                   backend/src/modules/users: profiles and the catalogue of companies
--
-- How code becomes definitions: an enum is a data type, an interface a record, a function a function by
-- clauses, an exception a value of Errors.HttpError. A method of a transaction is a function from the
-- tables to an error or to an answer with the tables after it; a transaction that throws leaves the tables
-- as they were. A transaction holds the lock of its order from its first query on, so that it is one step
-- of the model. An insertion of files is different: nothing locks the rows of the files, so that what others
-- commit between its check of the room and its rows is a parameter (backend/src/modules/files/file-quota.ts
-- says of that race why the bound of the service has a reserve). Prisma's queries are a parameter (Store.Queries.Queries); what its documentation promises
-- of them is Store.Queries.IsLawful, which the tables as lists meet. Asynchronous primitives (the queue,
-- the semaphore, the places) are state with one step for each arrival, timeout and end, and the theorems
-- are about all sequences of steps. The identifiers that the database gives out are a function of a number.
--
-- Numbers are natural; a price stands as the text that the database prints, an instant as its number of
-- milliseconds since 1970, and a calendar date as the text that toISOString gives. The years of a date are
-- found with one unit of fuel for each day, which is more than there are years.
--
-- What is not modelled: the framework's wiring, the interface's components, and the libraries of
-- tokens, of sockets and of the storage of files, whose answers are parameters (the rooms of the sockets are
-- Realtime.Adapter.Rooms, with laws); the name under which a file is stored, the other forms and the filters
-- of the interface, accounts that were never confirmed and the demo data; the waiting times of the queue,
-- where a timeout may come at any time.
pub mod Base
pub mod Errors
pub mod Shared
pub mod Store
pub mod Common
pub mod Orders
pub mod Auth
pub mod Files
pub mod Interface
pub mod Notifications
pub mod Offers
pub mod Realtime
pub mod Users
