-- ===== src/Pointers.antt =====
-- The sample pages that show one another's pointers: samples/pointers/src/main/webapp/public/js.
pub mod Tracker
pub mod Surface
