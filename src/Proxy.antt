-- ===== src/Proxy.antt =====
-- internal/proxy/proxy.go and internal/proxy/api.go: the proxy in front of the Kubernetes API.
pub mod Users
pub mod Credentials
pub mod Identity
pub mod Config
pub mod Auth
pub mod Lifetime
pub mod Locking
pub mod Sync
pub mod Defaults
pub mod Startup
pub mod Interval
pub mod Interfaces
pub mod Retries
pub mod Routes
pub mod Onward
pub mod Identified
pub mod Spoofing
pub mod Answers
pub mod Netclient
pub mod Server
pub mod Groups
pub mod Exchanges
mod Replies
mod Networks
mod Examples
