-- ===== src/App.antt =====
-- The operator's app: app/lib and the pages under app/app. The wallet adapter of Solana and React's
-- hooks are libraries; a component is a record of its hooks' values, and an event replaces it.
pub mod Binding
pub mod PolicyPage
pub mod Trail
pub mod Shell
