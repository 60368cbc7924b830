-- ===== src/Book.antt =====
-- include/hft/spot_book.h and src/spot_book.cpp: the visible book of five levels a side.
-- Side: the fixed array of one side and its operations. Core: both sides, refreshes and diffs.
-- Spot and Usdm: the two sequencers over the core.
pub mod Side
pub mod Core
pub mod Spot
pub mod Usdm
mod Tests
