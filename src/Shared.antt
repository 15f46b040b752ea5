-- ===== src/Shared.antt =====
-- internal/domain/shared: the aggregate root and its events, and money.
pub mod Event
pub mod Money
