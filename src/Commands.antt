-- ===== src/Commands.antt =====
-- internal/application/command: the use cases.
--
-- A use case runs on the database `g` and the gateway `gw`. Its closures write the variables of the
-- handler; in a transaction the state is a pair of those variables, which no rollback undoes, and
-- the database. What a handler hands to the event bus is part of its outcome.
pub mod Memory
pub mod PlaceOrder
pub mod CancelOrder
pub mod UpdateOrderStatus
pub mod CreateProduct
pub mod UpdateProduct
pub mod RegisterUser
pub mod LoginUser
pub mod UpdateUser
pub mod Examples
