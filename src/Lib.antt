-- ===== src/Lib.antt =====
-- The SelfKey Identity Wallet, an Electron application: the parts of its store and its services that
-- decide what is kept for a wallet, what is sent to the blockchain, and what a user is asked.
--
-- The program keeps a redux store (src/common), changed by actions through reducers, read by
-- selectors, and driven by operations that call the services of the main process (src/main). A
-- reducer here is a function from payload and state to state, an operation a function over the store
-- and what lies behind the services. Services, tables and the chain are records of functions over an
-- abstract state, which an operation takes as an argument.
--
-- Common: equality, lists, the object used as a map (Dict), the pair of a list of ids and an
--   object from id to entity in which the reducers keep everything (Collection), and the result of
--   a call that may throw (Outcome).
-- Schema: JSON values and schemas, and src/common/identity/utils.js. Schema.Documents has
--   normalizeDocumentsSchema and denormalizeDocumentsSchema, Schema.Reference the texts that stand
--   for documents and the regular expressions that read them, Schema.Meta containsFile and
--   removeMeta. The depth left, `maxDepth + 1`, is the fuel: at 0 the code returns what it is given,
--   so the functions are those of the source at any depth, 11 from outside. A new value that the
--   code makes is a value; the mutation of a found document by `delete` is not seen elsewhere.
-- Identity: src/common/identity/{reducers,selectors,operations,actions}.js. Identity.State has the
--   entities and the actions, Identity.Reducers the sixteen reducers, Identity.Selectors the
--   selectors, Identity.Operations the operations over an interface for the services of
--   src/main/identity. Properties of Identity.Wallets, Identity.Lock and Identity.Reloading relate
--   these.
-- Staking: src/main/blockchain/staking-service.js. Staking.Chain is the interface to
--   src/main/blockchain/web3-service.js: a ticket is one call of a contract, which may throw and
--   moves the chain on; awaited calls run in order. Staking.Contracts has the contracts,
--   Staking.Service the service, Staking.Config the remote table of contracts.
-- Marketplace: src/common/marketplaces/{reducers,selectors,operations,actions}.js, the service in
--   src/main/marketplace/marketplace-service.js, and checkTransactionStatus of
--   src/main/blockchain/web3-service.js. Marketplace.Service fills the interface that
--   Marketplace.Operations calls, over the staking service and a table.
-- Queue: src/common/utils/async-task-queue.js, the rate limit. The fuel of Queue.handle_task is the
--   number of calls for a task; two are enough, since a timer fires no earlier than it is set for.
-- AddressBook: src/common/address-book/{actions,operations,reducers,selectors}.js and the check of
--   addresses in src/main/address-book/address-book-service.js.
-- Prices: src/common/prices/{reducers,actions,selectors}.js, the prices of tokens by symbol, and
--   src/main/token/price-service.js (Prices.Service).
-- Login: src/main/lws/lws-service.js, the requests of a browser extension over a web socket.
--   Login.State has the messages and the interface to wallets, identities, sessions and the log,
--   Login.Connection the connection and sending, Login.Sessions the handlers of logins and signups,
--   Login.Requests the other handlers and the dispatch. The log of actions is taken to be there. A
--   handler that throws ends in a rejected promise, which nobody awaits.
-- Kyc: src/common/kyc/index.js, getServiceDetails of src/common/exchanges/selectors.js, and the session
--   with a relying party of src/main/platform/relying-party.js. Kyc.Reducers and Kyc.Selectors are
--   over the store's parts, Kyc.Operations loads a relying party, Kyc.Operations.Applications has the
--   operations on applications. Kyc.Session and Kyc.Session.Calls are the session over an interface
--   for requests and signatures; Kyc.Parties fills the interface of the operations with it. What is
--   done for all elements at once (`Promise.all`) is done in their order. The thirty seconds of a
--   hardware wallet are a timeout that is pending until it is cleared or fires.
-- EthUtils: src/common/utils/eth-utils.js, the paddings and the words of a contract's data. The fuel of
--   EthUtils.words is the length of the text, and no word is empty.
-- Transactions: src/common/transaction/{operations,reducers,actions,selectors}.js.
--   Transactions.Operations has what is set before sending and the data that is sent,
--   Transactions.Sending the listeners and the timeout of confirmSend and incorporationSend as a
--   machine over a list of events, in any order. One event is handled as a whole.
-- TxHistory: src/main/blockchain/tx-history-service.js and src/common/transaction-history/index.js
--   (TxHistory.Store). TxHistory.Formats has the remote service and its numbers,
--   TxHistory.Processing what is stored of a transaction, TxHistory.Sync the pages of the remote
--   service and their merge, TxHistory.Jobs the synchronisation of wallets and the job that
--   repeats it. The fuel of collect_pages is the number of pages, that of the job the number of
--   rounds, which the code does not bound. A hash is no numeral, so the keys of the merged object
--   keep their order.
-- Web3: src/main/blockchain/web3-service.js. Web3.Sending has the tickets and the signed transactions
--   over an interface to the node. One ticket is handled and awaited before the next; what a promise
--   comes to is the first event of the name that is listened to, or its result. A receipt has no field
--   ticketPromise.
-- Incorporations: src/common/incorporations/{reducers,actions,selectors,operations}.js, and
--   src/main/marketplace/incorporations-service.js (Incorporations.Service).
-- WalletTokens: src/common/wallet-tokens/{operations,reducers,actions,selectors}.js and
--   src/common/view-all-tokens/reducers.js; Tokens:
--   src/common/tokens/{operations,reducers,actions,selectors}.js.
-- Wallet: src/common/wallet/{operations,reducers,actions,selectors}.js (Wallet.Store,
--   Wallet.Replacing) and src/main/wallet/wallet-service.js (Wallet.Service), over interfaces to
--   accounts, files and the table of wallets.
-- App: src/common/app/index.js. App.Operations is over the store of Wallet.Store, the state of the
--   application, the routes and the emitter of a Trezor; App.Hardware has the operations on a Ledger
--   and a Trezor. The fuel of load_trezor_wallets is the number
--   of attempts, which a user ends by the right PIN or by cancelling.
--
-- Numbers are natural numbers, which ids, times, amounts and gas are; a difference of gas, which may
-- be negative, is an integer (Common.Integer). Amounts of tokens are whole, since the code leaves
-- fractions to BigNumber. An own property whose value is `undefined` is one that is missing. `Date`,
-- `JSON.parse`, the validator Ajv, BigNumber and the functions of `web3.utils` are arguments. A text
-- that the chain returns is read as a number if it is a decimal numeral.
--
-- Not modelled are the tables that objection manages and the user interface; calls of one operation
-- do not overlap.
pub mod Common
pub mod Schema
pub mod Identity
pub mod Staking
pub mod Marketplace
pub mod Queue
pub mod AddressBook
pub mod Login
pub mod Prices
pub mod Kyc
pub mod EthUtils
pub mod Transactions
pub mod TxHistory
pub mod Wallet
pub mod App
pub mod Web3
pub mod Incorporations
pub mod WalletTokens
pub mod Tokens
