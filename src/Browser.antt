-- ===== src/Browser.antt =====
-- What the client reads of the browser: which requests it can make, which transports it has, and when its page is loaded.
pub mod Requests
pub mod Checks
pub mod Loading
pub mod Opening
