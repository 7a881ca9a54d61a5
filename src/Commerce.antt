-- ===== src/Commerce.antt =====
-- app/modules/commerce: the wallet, and the orders, payments and refunds that move its money.
pub mod Wallet
pub mod Data
pub mod Membership
pub mod Settlement
pub mod Orders
pub mod Payments
pub mod Refunds
pub mod Frame
pub mod Money
pub mod MoneyHandlers
pub mod Requests
pub mod PaymentLaws
pub mod NotifyLaws
pub mod RefundLaws
pub mod Prices
mod Tests
