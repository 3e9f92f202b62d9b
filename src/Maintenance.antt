-- ===== src/Maintenance.antt =====
-- The maintenance lease and the service over it (src/application/maintenance-lease.ts,
-- src/application/maintenance-service.ts, src/domain/maintenance.ts).
pub mod Lease
pub mod Service
