-- ===== src/Web.antt =====
-- The web application: its proxy to the API and its page.
pub mod Uri
pub mod Proxy
pub mod Clock
pub mod Page
pub mod View
mod Tests
