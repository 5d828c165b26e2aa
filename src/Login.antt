-- ===== src/Login.antt =====
-- Login with SelfKey: src/main/lws/lws-service.js, by which a browser extension asks for wallets,
-- attributes and logins over a web socket.
pub mod State
pub mod Connection
pub mod Attributes
pub mod Sessions
pub mod Requests
pub mod Replies
pub mod Unlocking
pub mod Accounting
pub mod Identities
mod Tests
