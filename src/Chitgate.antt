-- ===== src/Chitgate.antt =====
-- internal/paymentgate/chitgate: the adapter between the proxy's merchant and the x402 rail.
pub mod ReplayCache
pub mod Rail
pub mod Credential
pub mod Merchant
