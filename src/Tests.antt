-- ===== src/Tests.antt =====
-- Every property at a concrete input.
mod Risk
mod Confidence
mod Backtest
mod Reviews
mod Scan
mod Live
mod Evidence
mod App
mod Quoting
