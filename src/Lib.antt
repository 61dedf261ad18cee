-- ===== src/Lib.antt =====
-- CoinBot: a trading bot for the Upbit exchange, verified from its core outwards. Paths are from the
-- repository's root.
--
-- The program. Messages of the exchange are queued for each market. The worker of a market
-- (src/app/MarketEngineManager.cpp) gives them to the market's engine (src/engine/MarketEngine.cpp) and
-- to its strategy (src/trading/strategies/RsiMeanReversionStrategy.cpp). The strategy decides at a
-- candle, from indicators (src/trading/indicators), and asks for orders. The engine checks an order,
-- reserves KRW for a buy with the account manager (src/trading/allocation/AccountManager.cpp), sends it
-- and keeps it in the store of orders (src/engine/OrderStore.cpp) until a snapshot ends it. Trades,
-- snapshots and the differences that a reconciliation finds are booked with the account manager.
--
-- The modules.
--   Base        lists, dictionaries and tests over the native numbers, and the library's names
--   Double      C++ `double` as an interface; Exact are the laws of sums that are not rounded, and of
--               shares that do not become negative, which the theorems on amounts take as a hypothesis,
--               and Int is the instance of whole KRW
--   Domain      src/core/domain and src/util/Config.h: orders, requests, trades, candles, settings
--   RingBuffer  src/trading/indicators/RingBuffer.h; Refine relates it to a queue
--   Indicators  RsiWilder, Sma, ClosePriceWindow, ChangeVolatilityIndicator, one child for each;
--               History, Windows and Readiness relate them to all closes that they were fed
--   Account     AccountManager and ReservationToken. Token is the token with its move and destructor,
--               Build the constructor and rebuildFromAccount; the other children are theorems
--   OrderStore  the store as an association list; Laws and Query are about its operations
--   Engine      MarketEngine. Events are its results, Request its checks, Dedupe the window of trades,
--               Snapshot is onOrderSnapshot and Reconcile is reconcileFromSnapshot; Exclusive, Run, Once,
--               Window, Sync, Replay, Rollback, Ending, Usable and Defined are theorems
--   BlockingQueue  src/core/BlockingQueue.h, the queue in front of an engine; Fifo are its theorems
--   EventRouter  src/app/EventRouter.cpp: Extract finds the market of a message; Prefix, Deliver and Scan
--               are theorems
--   Strategy    RsiMeanReversionStrategy. Types is StrategyTypes.h, State the state and its small methods,
--               Decide is onCandle and onIntrabarCandle, Follow is onFill, onOrderUpdate and
--               onSubmitFailed; Invariant, Orders, Cycle and Undo are theorems
--   Json        the JSON library as an interface, with the ways in which messages are read
--   Upbit       src/api/upbit: Dto and MyOrder are the messages about orders and candles and their
--               mappers, Messages is WsMessageParser.cpp. Answers are the exchange's answers and OpenOrders
--               their mappers, Exchange is UpbitExchangeRestClient.cpp, Shared is SharedOrderApi.cpp, as steps of
--               threads. Told, MinuteUnit, SameOrder, Accepted, Signed and, of Shared, Serial and Alone are
--               theorems
--   Url         src/util/UrlCodec.h over bytes; Plain are theorems
--   Rest        src/api/rest/RestClient.cpp: the retries of a request, and the stages of a try; Attempts are
--               its theorems
--   Startup     src/app/StartupRecovery.cpp: what a market cancels and takes over at the start; Own, Cancel
--               and Held are theorems
--   Manager     src/app/MarketEngineManager.cpp. Build is its constructor and the calls of other threads,
--               Loop the worker's loop, Orders handleMyOrder_, Candles handleMarketData_, Recovery
--               runRecovery_ and checkPendingTimeout_; Sound, Rounds, Again, Confirmed and Pending are
--               theorems
--
-- How the code is modelled. A method is a function from its object's state, and from the objects that
-- it calls, to their new states and its result; a name is the source's, in snake case. A method that
-- holds a lock is one step. What the exchange answers, the random part of an identifier, the clock and
-- the text of a printed trade are arguments. AppConfig::instance() is an argument. Undefined behaviour
-- is `none` where the code can reach it. A token that goes out of scope is destroyed by an explicit
-- call, as the destructor is called.
--
-- Loops. The loops over containers are structural, and so is the loop that evicts old trades, on the
-- queue that it shortens. The loop of retries is structural in the number of tries that are left.
--
-- Not modelled: threads and locks beyond the atomicity of a method (but for Shared), log output, network, JSON, the
-- database but for what is written to it, and rounding. What the worker's loop prints of an exception is
-- left out; an exception of a handler ends its round. The messages of errors are left out too. Not
-- modelled are the client of public data, the WebSocket client, the signer of requests, the rows
-- of the database and the start of the program.
pub mod Base
pub mod Double
pub mod Domain
pub mod RingBuffer
pub mod Indicators
pub mod Account
pub mod OrderStore
pub mod Engine
pub mod Strategy
pub mod BlockingQueue
pub mod EventRouter
pub mod Json
pub mod Upbit
pub mod Startup
pub mod Manager
pub mod Url
pub mod Rest
