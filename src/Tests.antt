-- ===== src/Tests.antt =====
-- Inputs on which the theorems are applied, and runs of the modelled code.
mod Auction
mod AuctionTheorems
mod Tools
mod ToolsTheorems
mod Market
mod MarketTheorems
mod CommandTheorems
