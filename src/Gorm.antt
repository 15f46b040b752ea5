-- ===== src/Gorm.antt =====
-- The database behind internal/infrastructure/persistence/gormrepo: the tables of models.go, and
-- GORM with PostgreSQL as a parameter, with the documented behaviour of the calls that the
-- repositories make.
pub mod Models
pub mod Engine
pub mod Orders
pub mod Inventories
pub mod Payments
pub mod Products
pub mod Users
pub mod Notifications
pub mod AuditLogs
pub mod Connect
pub mod InMemory
pub mod Examples
