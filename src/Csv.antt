-- ===== src/Csv.antt =====
-- src/csv_formatter.cpp, include/hft/csv_formatter.h: the rows that the program writes.
pub mod Headers
pub mod Numbers
pub mod Format
pub mod Limit
pub mod ValidBook
mod Tests
