-- ===== src/Recipe.antt =====
-- internal/recipe: how much of an ingredient a component's units need.
pub mod Models
pub mod Quantity
mod Tests
