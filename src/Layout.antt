-- ===== src/Layout.antt =====
-- The tiling layout of a tab: frontend/layout/lib/types.ts, layoutNode.ts, layoutTree.ts, utils.ts
-- and layoutModel.ts.
pub mod Types
pub mod Node
pub mod Balance
pub mod Locate
pub mod Tree
pub mod Move
mod Tests
pub mod Reducer
pub mod Leafs
pub mod Drop
pub mod Navigate
pub mod Model
