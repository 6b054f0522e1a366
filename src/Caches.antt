-- ===== src/Caches.antt =====
-- pkg/workloadmanager/client_cache.go: the cache of Kubernetes clients by service account and the
-- cache of token reviews by token. A call of `time.Now` is an argument; each method holds the
-- mutex throughout, so a call is one step. `parseJWTExpiry` is a parameter.
pub mod Expiry
pub mod History
pub mod Lru
pub mod Clients
pub mod Tokens
