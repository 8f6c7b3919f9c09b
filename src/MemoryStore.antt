-- ===== src/MemoryStore.antt =====
-- agent-backend/app/services/memory_store.py: incidents, action locks, leases and the verification
-- queue over the Elasticsearch client. Every function catches what the client raises.
pub mod Incidents
pub mod Locks
pub mod Leases
pub mod Jobs
