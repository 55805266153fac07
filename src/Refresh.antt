-- ===== src/Refresh.antt =====
-- internal/refresh: one refresh of the login, from the stored identity to the notification.
pub mod Message
pub mod Contracts
pub mod Calls
pub mod Checks
pub mod Auth
pub mod Service
