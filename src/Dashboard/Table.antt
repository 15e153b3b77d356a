-- ===== src/Dashboard/Table.antt =====
-- The proxy table of engine/static/app.js: its state, and the operations that filter, sort, page
-- and select. A rendering is the data that the templates put into the markup.
pub mod Order
pub mod Filter
pub mod Page
pub mod Selection
pub mod Rows
pub mod State
