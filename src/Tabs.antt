-- ===== src/Tabs.antt =====
-- The tab bar of the workbench: the store and the functions that open tabs.
pub mod Store
pub mod Valid
pub mod Change
pub mod Close
pub mod Open
pub mod Reachable
