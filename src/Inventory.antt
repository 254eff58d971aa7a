-- ===== src/Inventory.antt =====
-- src/bms/domain/inventory: items, stock movements, and the stock and value that they add up to.
pub mod Models
pub mod Items
pub mod Stock
pub mod Movements
pub mod Port
