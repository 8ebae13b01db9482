-- ===== src/MarketData.antt =====
-- market_data/: the quality of daily bars and the trading calendar.
pub mod Bars
pub mod Calendar
mod Tests
