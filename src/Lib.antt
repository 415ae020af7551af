-- ===== src/Lib.antt =====
-- The API of the Safrochain indexer (safrochain_api_indexeur/src): a NestJS service that answers
-- HTTP requests from a PostgreSQL database of blocks, transactions and messages, which another
-- program fills. This library models the parts that compute: paging, the walks over JSON messages,
-- the message parser, the transaction and block services and the date filters.
--
-- The parts, and the code that each models:
--   Prelude        shared names, Boolean tests, lists, sets of strings, and integers over the
--                  native numbers; no code of its own.
--   Paging         common/utils/pagination.util.ts and common/dto/pagination.dto.ts: Params
--                  (normalizePagePagination, normalizeOffsetPagination, clampLimit), Meta
--                  (buildPaginationMeta and the DTO constructors), Windows (a listing cut into
--                  pages), Query (the select queries that services build), Cursor (the next
--                  cursor of a page, and a client that follows it) and Offsets (a client that
--                  reads on by offset).
--   Json           Value (a JavaScript value), Addresses (extractAddressesFromMessage of
--                  modules/transaction/transaction.service.ts) and Dates (common/utils/date-serializer.util.ts).
--   Messages       common/services/message-parser.service.ts and common/types/message.type.ts:
--                  Registry with its Entries (initializeMessageTypes), Names
--                  (extractModuleFromType, extractLabelFromType), Parser (parseMessage,
--                  extractAmount) and Involved (extractInvolvedAddresses). Listing is
--                  modules/message/message.service.ts: its filters, listings and pages.
--   Entities       the columns that services read of entities/block.entity.ts,
--                  transaction.entity.ts and message.entity.ts.
--   Transactions   modules/transaction/transaction.service.ts: Filters (buildTransactionQuery,
--                  getSortField), Listing (getTransactions, getTransactionsAdvanced), Response and
--                  Preload (processTransactionResponse, preloadMessagesByHash), and Counts
--                  (getTransactionCountsRecent with its cache), Single (getTransactionByHash,
--                  getTransactionMessages, getTransactionStatistics) and Offsets (the listings
--                  by type, validator and block range, and searchTransactions).
--   DateFilters    common/services/date-filter.service.ts: Texts, Calendar (its helpers) and
--                  Conditions (applyDateFilters).
--   Amounts        common/types/coin.type.ts and BigInt on decimal texts.
--   Addresses      modules/address/address.service.ts: Types (getMessageType,
--                  extractAmountFromMessage), Summary (getAddressTransactions,
--                  getRecentTransactions), Messages (the service's own
--                  extractAddressesFromMessage and calculateTotalFee), Filters (buildAddressTransactionQuery), Response
--                  (processAddressTransactionResponse, with Directions and Totals about its
--                  parts) and Listing (getAddressTransactionsAdvanced).
--   Blocks         modules/block/block.service.ts: Listing (getBlocks), Fees (the total fees of
--                  getBlockStatistics) and Single (getBlockByHeight, getBlockByHash,
--                  getBlockStatistics, getBlockTransactions), Messages (the service's own
--                  extractAddressesFromMessage and the loop over a transaction's messages).
--   Staking        modules/staking/staking.service.ts: Listing (the messages of an account) and
--                  OneRow (the tables of one row, and the signing information).
--   Validators     modules/validator/validator.service.ts.
--   Cors           the origins that the CORS configuration of main.ts admits.
--
-- How they interact: a listing takes a filter to a list of conditions, one constructor for each
-- text that the code hands to andWhere, adds the cursor and the limit of Paging, runs the query,
-- and makes the page's meta from the rows that come back. The rows of a transaction listing are
-- made into responses, which read the message parser and the address walk. A service's one piece of
-- state, the cache of recent counts, is passed along explicitly.
--
-- What is outside the repository is a parameter. The database is get_many, and Answers says what
-- SQL promises of it where no rows tie: WHERE, ORDER BY, OFFSET and LIMIT; AnswersInOrder leaves the
-- order of the rows to each query; AnswersOnce says it of a join that repeats
-- rows, of which TypeORM returns each entity once. BigInt, Date and the clock are the records
-- BigInts, DateText and Clock, ILIKE is a function of two texts, JSON.stringify one of a value and
-- the host name of a URL one of its text. The repositories that look up one row are functions into
-- Option, and a handler that throws ends in an Outcome.
--
-- Bounds and fuel. A client that follows cursors has fuel, one unit for each request; one more than
-- there are rows is enough, since every page but the last one moves the cursor or the offset.
-- Printing a number has fuel one more than the number, and the search for a power of ten above a gas
-- figure has the figure. The loops of the code are structural recursion. Heights, gas and sizes are
-- natural numbers, and the numbers of a request are integers, as the DTOs ask for; texts are lists of code points where the code looks
-- inside them, with ASCII case mapping. A thrown exception is none.
--
-- Not modelled: the controllers, the framework wiring and decorators, which only call; serializeDates
-- around a response, which is modelled by itself in Json; the quotients of floating-point numbers
-- (success_rate, gas_efficiency); endpoints that return constants; the governance, supply, token
-- and genesis services; the SQL statistics of the transaction and address services, which are
-- texts for the database; callisto, which is a copy of another project's indexer; scripts,
-- migrations and configuration.
mod Prelude
pub mod Paging
pub mod Json
pub mod Messages
pub mod Entities
pub mod Transactions
pub mod DateFilters
pub mod Amounts
pub mod Addresses
pub mod Blocks
pub mod Cors
pub mod Staking
pub mod Validators
