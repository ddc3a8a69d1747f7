-- ===== src/Commerce.antt =====
-- modules/commerce/commerce.service.ts: inventory, orders, tax rules, carts and the checkout.
pub mod Inventory
pub mod Orders
pub mod Cart
