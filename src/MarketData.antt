-- ===== src/MarketData.antt =====
-- Market data: backend/app/modules/market_data.
pub mod Calendar
pub mod Intraday
pub mod Hourly
pub mod Validation
