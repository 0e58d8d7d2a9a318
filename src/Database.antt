-- ===== src/Database.antt =====
-- The relational store: the rows of app/database/duckdb/ddl.sql, and the statements that the queries
-- run. A table is the list of its rows in the order of insertion.
pub mod Tables
pub mod Statements
pub mod Rows
pub mod StringOrder
pub mod Actions
pub mod Migration
