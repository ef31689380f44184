-- ===== src/Tests.antt =====
-- Runs of the model at concrete inputs.
mod Sessions
mod Routes
mod Sockets
mod Requests
mod Quotes
mod Tickets
mod Charts
mod Portfolios
mod Candlesticks
mod HoldingsPage
mod Simulations
mod Forms
mod Inquiries
mod Laboratory
mod Heatmaps
