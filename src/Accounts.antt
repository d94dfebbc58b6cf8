-- ===== src/Accounts.antt =====
-- Users, who may manage whom, and the requests that write rows of users.
pub mod Permissions
pub mod Requests
pub mod Confined
pub mod Ranges
pub mod Escalation
