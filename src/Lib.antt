-- ===== src/Lib.antt =====
-- Relay: the sync of Closed Won deals from Salesforce into a mock ERP.
--
-- A poller puts an event for each changed deal on an SQS queue. The worker (worker/app.py) takes a
-- batch of messages, maps each to an order (worker/mapping.py) and writes it to three DynamoDB
-- tables in one conditional transaction (erp/writer.py). A transient failure is put off with a
-- growing visibility timeout (worker/backoff.py), a permanent one (worker/classify.py) goes to a
-- dead-letter queue, and the response names the messages that SQS must deliver again. Failures can
-- be switched on (worker/chaos.py); what happens is logged and counted (worker/logs.py,
-- worker/metrics.py). Each night the reconciler (reconciler/app.py) compares Salesforce with the
-- orders table and puts the missed deals on the queue again.
--
-- Where the parts stand:
--   Common     lists, integers over the native numbers, dicts as association lists, texts
--   Python     decimal numbers, JSON values, and the date pattern, as Python has them
--   Outcome    the exceptions, and code that may raise; Exec: the same with a state, which stays
--              changed after a raise. Exec.Keeps and Exec.Returns hold the rules of reasoning
--   Aws        the requests and errors of erp/writer.py (Types), the clients and clocks as a record of
--              operations on an unknown world (Client), what is relied on of DynamoDB (Dynamo) and of
--              SQS, SSM and the clocks (Services), and a small in-memory AWS that meets both (Memory, Tables)
--   Erp        Schema for erp/schema.py, Writer for erp/writer.py; Versions, Effect, Reading,
--              Refinement, Sync, History, Newest and Convergence hold its theorems
--   Worker     Backoff, Classify, Mapping, Chaos, Logs, App and Handler for the files of worker/, a
--              function of the model for each function of the source; their children hold the theorems
--   Reconciler Events, Reconcile, Scan, Salesforce and App for reconciler/: the comparison is in
--              Reconcile, the lookups of stages and versions that reconcile.py makes are in Scan, and
--              the theorem on the requests of a page in Salesforce/Requests
--   FakeSalesforce
--              Soql for fake_salesforce/soql.py, with its expressions in Scan, tokenize in Tokens, the
--              methods of the parser in Parser and parse in Parse, and the grammar that they
--              are held against in Grammar; Store, Reads and Rows for
--              fake_salesforce/store.py: the writes, the conditions of a query, and its order and JSON;
--              Server for fake_salesforce/server.py: the state, then Http, Oauth, Data, Admin, Controls
--              and Dispatch for its routes, and Faults, Access, Digits,
--              Locators and Pages for their theorems
--   Tests      of Erp, Worker, Reconciler and FakeSalesforce: runs on concrete inputs
--
-- A function of the source is a definition of its name, a leading underscore left out. A dict is an
-- association list, a JSON value is a data type, and int is ℤ. What a call of boto3 does is a
-- parameter; an exception that it raises may be any. The loops over the records of a batch recurse
-- on the list, so no fuel is needed. The loops over the pages of a query and of a scan are on fuel
-- and raise StillRunning, an exception of the model alone, when there are more pages than the fuel.
-- Times of the backoff are whole ticks, a number of which make a second, and the random number is a
-- multiple of 2^-53, so the rounding of floats is not modelled. Not modelled: the text that
-- json.dumps prints, the rounding of timestamps, the cache of clients, the poller and the command
-- line tool (Go), and the scripts. The numbers that `_new_id` of the stub tries are on fuel, one more
-- than there are records; its tokenizer is on the characters that are left, and each loop of its
-- parser on the number of tokens, since every round takes one. A request to the stub is a value, with
-- the clocks and secrets that its handling reads; requests are handled one after the other, a negative
-- page size is left out, and so are the headers of a reply and the printed log.
pub mod Common
pub mod Python
pub mod Outcome
pub mod Exec
pub mod Aws
pub mod Erp
pub mod Worker
pub mod Reconciler
pub mod FakeSalesforce
