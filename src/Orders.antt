-- ===== src/Orders.antt =====
-- internal/services/orderservice/internal/orders: the order service.
pub mod Items
pub mod Order
pub mod Creating
pub mod Projection
pub mod Reading
mod Tests
