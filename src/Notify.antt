-- ===== src/Notify.antt =====
-- pkg/apikit/apinotify: the channels, what they post, the manager and its adapter.
pub mod Channels
pub mod Post
pub mod Manager
pub mod Adapter
pub mod Delivery
pub mod Desk
pub mod Closing
pub mod Once
pub mod Loading
pub mod Enabled
