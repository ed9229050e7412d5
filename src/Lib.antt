-- ===== src/Lib.antt =====
-- The banking services of this repository: the saga of a transfer between accounts, and deposits
-- between this bank and its partners. The services share no memory: each keeps its tables and
-- talks to the others by events, which a broker delivers at least once and in any order.
--
-- TransactionService models apps/transaction-service/src/transaction. Status has the enums of
-- domain/enums; Entity the aggregate of domain/entities/transaction.entity.ts; Updates and Creation
-- the services of application/services (update-transaction-state, create-transaction and
-- customer-kyc); World the tables and the broker; Publisher and Incoming the messages; Retries the
-- retries of infrastructure/messaging/rabbitmq.service.ts; Consumer the handlers of
-- presentation/consumers/transaction-events.consumer.ts and the table of processed events; Query the
-- history, with presentation/controllers/transaction-query.controller.ts. Of the
-- children Entity.Stages, Entity.Delivery and Entity.Outcomes are about what events make of one
-- transaction, Consumer.Delivered about the handlers and the table, Consumer.Once, Consumer.Retry and
-- Consumer.Requests about what is handled once, again, and at the start of a saga, Creation.Rows and
-- Creation.Retried about a saga that is opened again, and Query.Pages about the pages of a history.
--
-- AccountService models apps/account-service/src/account. Rows has the entities and the published
-- events; Saga the saga of account.service.ts, and Accounts the opening and the closing of accounts;
-- Anomaly anomaly-detector.ts; Rules interbank.rules.ts; Interbank and Deposits the two sides of
-- interbank.service.ts. Saga.Holds states what balanced books are, and Saga.Balanced, Saga.Closing,
-- Saga.Money, Saga.Crossed, Saga.Events, Accounts.Opened, the children of Interbank and those of
-- Deposits are about what the operations do to them and what is done once.
--
-- PaymentService models apps/payment-service/src. Rules has interbank/interbank.rules.ts but for the
-- check of a request's fields and the hashes; its children are about the waits and the
-- comparison of a day's lists. Payments models
-- payment/payment.service.ts, and Payments.Authorised is about what is authorised and how often;
-- Payments.Simulation has payment/simulation-config.ts and the changes of the settings, and its child
-- Ranges their bounds.
-- Interbank models interbank/interbank.service.ts with the tables of its two entities: Outbox the
-- conditional updates and the events that wait to be published, Sender the sending of a transfer,
-- Timeouts the protocol when no answer comes, Receiver and Callbacks the requests of the partner
-- banks, with the check of a request in Receiver.Requests, Reversals and ReversalRequests the
-- reversals in both directions, Worker the timer's round and the events of Account. Moves is about
-- what a statement may do to a row, Invariant and Statements about one statement and the tables, Timeouts.Others and Timeouts.Ending
-- about one turn of a round, and
-- the modules called Kept about one operation and the tables. History has all
-- operations in any order, where the second half of a call that waits for a partner bank or the
-- broker works on a row as it was read before; History.Outcomes, Timeouts.Release, Timeouts.Round, Receiver.Once,
-- Receiver.Cancelled and Receiver.Answered draw the conclusions. Reconciliation has the daily reconciliation in both
-- directions; its child Pages is about the loop over a partner's pages, and Partners about two banks.
--
-- InterbankMock models the class of apps/interbank-mock/src/bank.ts: the module itself its state and its
-- configuration, Receiver the deposits it gets, Sender those it sends, its reversals and its list of a
-- day. History has its operations and timers in any order, Invariant and Kept what they keep, and Outcomes
-- is about what its answers and callbacks promise to payment-service.
--
-- ApiGateway models apps/api-gateway/src: Guards the routes with their decorators and the two guards,
-- Transfers the controllers that look at whose account it is, Contract the routes of the partner banks, and
-- Controllers a whole request. Access and its children Requests and History are about who may do what, the
-- last one together with the history of TransactionService.
--
-- Prelude has the tests, lists, integers, tables and the type of calls that all of them share;
-- Prelude.Program has calls built by combinators that stay shut, and Program.Keeps the rules by
-- which such calls keep a property of their state, Program.Ends those by which they do not throw; Prelude.Sorting sorts rows.
--
-- How the model reads the code. A service's call is a function of its world and returns a result
-- or an exception and the new world; `manager.transaction` and `dataSource.transaction` run alone,
-- since they lock the rows that they use, and are undone by an exception. Money is whole cents as
-- integers: rounding by `toFixed(2)` and the errors of floating-point sums are not modelled, and an
-- amount that is no finite number is `none`. Ids and texts that the code only compares are numbers,
-- with 0 for an empty or missing one; the account names of a transfer are strings, and external
-- account names are lists of codes. Times are milliseconds, and the clock, the ids of `randomUUID`
-- and the limits from the environment are arguments. Whether a publish goes through while a message
-- is handled is the field `broker` of the world. The id of a published event is a hash of its
-- transaction, type and status, so those fields stand for it. What a partner bank answers to a
-- request, and Account to a cancellation, is a function of the request and is an argument, as is the
-- clock, which stands still during a call. All loops are structural but three: the three
-- attempts in `receiveResult` are a bound of the source, and the deliveries of a message in Retries
-- are counted by fuel, of which one more than the retries that are left is enough, and so are the
-- requests of `reconcile`, of which two more than a bound on the totals that the partner claims are
-- enough; without such a bound the loop need not end.
--
-- Not modelled: logging, tracing and metrics, the mapping to database columns, the connections to
-- the broker and over HTTP, the queries of accounts and of a service's health, the HTTP server of the
-- mock, the readiness probe of the API gateway, the frontend and the services written in Java.
pub mod Prelude
pub mod TransactionService
pub mod AccountService
pub mod PaymentService
pub mod InterbankMock
pub mod ApiGateway
