-- ===== src/Lib.antt =====
-- The single-page frontend of the trading simulator (frontend/src): what it does with its session,
-- its requests, its WebSocket connection and the live prices.
--
-- The parts and how they interact. The session store (Auth) holds the access token and the user.
-- The request client (Api) reads the token for every request, and on a 401 gets a new one through
-- one shared call of /auth/refresh. The WebSocket engine (Ws) reads the token to connect, and clears
-- the store when the server closes for policy. Its packets reach the callbacks that components
-- subscribed (Ws.Dispatch), among them the hook that merges prices into a buffer (Market). The
-- routes (App) show the shell or the sign-in pages by the store's flags. The order ticket (Trade)
-- sends orders through the request client and shows its error messages. The sign-in forms (SignIn)
-- call the session service and go where the routes lead; the portfolio page (Holdings) merges the
-- hook's positions (Portfolio) with the live quotes; the trade page (Trade.Desk) joins them with the
-- ticket; the research pages (Research, Regime) ask the server for one thing after another; Candles,
-- Equity, Optimizer, Simulation, Heatmap and Surface turn replies into the series and states that the
-- charts draw; Glossary explains their numbers.
--
--   Prelude      shared names, Boolean tests, lists, integers, sets of callbacks
--   Js           JavaScript values, truthiness, property reads, object spread, numbers
--   Auth         frontend/src/store/authStore.js, services/authService.js (setAuth is set_auth, and
--                so on), hooks/useAuthHydration.js
--   App          frontend/src/App.jsx (ProtectedRoute, PublicOnlyRoute, the routes), the titles of
--                components/layout/DashboardLayout.jsx
--   Ws           frontend/src/services/websocket.js: the connection; Ws.Dispatch: the listeners
--   Api          frontend/src/services/apiClient.js: the interceptors and the refresh; Api.Message:
--                the error message
--   Market       frontend/src/store/marketStore.js and hooks/useMarket.js
--   Trade        frontend/src/components/trading/OrderTicket.jsx and services/tradeService.js:
--                validation, submit and its reply; Trade.Panel: components/trading/TradingPanel.jsx;
--                Trade.Search: components/trading/SymbolSearch.jsx and utils/stockSymbols.js;
--                Trade.Desk: pages/Trade.jsx, which joins the ticket with the quotes, the portfolio
--                and the recent trades
--   Portfolio    frontend/src/services/portfolioService.js and hooks/usePortfolio.js
--   Holdings     frontend/src/pages/Portfolio.jsx: rows, totals, selection, snapshots, the two buttons;
--                Holdings.SymbolsKey: the key of the quotes to poll; Holdings.Allocation:
--                components/charts/AllocationPie.jsx; Holdings.Details: the signal in
--                components/trading/StockDetailsPanel.jsx
--   SignIn       frontend/src/pages/Register.jsx and pages/Login.jsx: forms, submission, answers;
--                SignIn.Typewriter: useTypewriter of components/auth/AuthScene.jsx
--   Account      frontend/src/pages/Account.jsx: the password and the reset; Account.Paper: the reset in
--                pages/PaperAccount.jsx
--   Research     the research pages under frontend/src/pages: Research.Debounced for VolSurface.jsx,
--                VolForecast.jsx, Backtester.jsx and Predictor.jsx, which wait for a pause in the input;
--                Research.Guarded for the effects that drop stale answers; Research.Pricing for
--                OptionPricer.jsx; Research.Sentiment for Sentiment.jsx; Research.Lab for QuantLab.jsx;
--                Research.Markers for the signals in Backtester.jsx
--   Optimizer    frontend/src/pages/Optimizer.jsx: the runs and the bins
--   Simulation   frontend/src/components/ui/MonteCarloViz.jsx: the pacing of the animation
--   Candles      frontend/src/components/charts/CandlestickChart.jsx: the series, not its drawing
--   Heatmap      frontend/src/utils/colormap.js and components/ui/VolHeatmap.jsx
--   Surface      frontend/src/components/ui/VolSurface3D.jsx: dragging, spinning and the frames
--   Equity       frontend/src/components/charts/EquityChart.jsx: the polls and the header's numbers
--   Dashboard    frontend/src/pages/Dashboard.jsx: its numbers, and when they are shown
--   Regime       frontend/src/pages/MarketRegime.jsx: buildSegments; Regime.Viewing: the choices, the
--                answers and what is shown of them; Regime.Palette: the regimes' colours and texts
--   Glossary     frontend/src/utils/glossary.js, components/ui/InfoButton.jsx and the keys that the
--                pages place
--   Tests        runs at concrete inputs
--
-- State is a record, each operation a function on it, and asynchronous code a list of events in the
-- order in which they arrive, so that a theorem about every list is one about every interleaving.
-- The browser's sockets and timers and the network's replies are part of the state or are events.
-- Parameters stand for what the source does not define: the decoder of a token, the conversions of
-- values to texts, numbers and times, the order of localeCompare and of sort, the quotient of two
-- amounts, which callbacks throw, and, for the pages that ask for one thing after another, the
-- server's answer to each of their requests.
--
-- Bounds. The one loop with a bound of the model's own is flushQueue, whose rounds are counted by the
-- length of the queue at its start; this is enough, since the queue is then empty. Finite numbers
-- count a fixed unit, and sums and products of them are exact: the rounding of JavaScript's doubles
-- is not modelled, as in the totals of Holdings. Times are whole numbers; fractions, as in
-- Simulation, Optimizer and Heatmap, are compared by their numerators, and angles, in Surface, count
-- 0.0005 radians.
--
-- Not modelled: markup and drawing, the thin wrappers around single endpoints, the components that no
-- page renders (components/trading/PositionsTable.jsx, components/common/TradeFeed.jsx, pages/Market.jsx),
-- callbacks that change the listener tables while a packet is delivered, paths with capital letters
-- (the router ignores case), symbols that are texts of digits (an object would list them first), and
-- the backend under app/, which is another program in another language.
pub mod Prelude
pub mod Js
pub mod Auth
pub mod App
pub mod Ws
pub mod Api
pub mod Market
pub mod Trade
pub mod Portfolio
pub mod Holdings
pub mod SignIn
pub mod Account
pub mod Research
pub mod Optimizer
pub mod Simulation
pub mod Candles
pub mod Heatmap
pub mod Surface
pub mod Equity
pub mod Dashboard
pub mod Regime
pub mod Glossary
pub mod Tests
