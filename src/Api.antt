-- ===== src/Api.antt =====
-- The synthetic payment service, payment-api/app/main.py: its settings, the signed tokens, the
-- handlers with their validation, and the middleware that counts requests.
pub mod Settings
pub mod Runtime
pub mod Reply
pub mod Bodies
pub mod Serve
pub mod Token
pub mod Resources
pub mod Requests
pub mod Metrics
pub mod App
mod Tests
