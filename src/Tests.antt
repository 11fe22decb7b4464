-- ===== src/Tests.antt =====
-- Tests, and each result at a concrete input.
mod Company
mod Postings
mod Amounts
mod Charts
mod Closing
mod Documents
mod Warehouse
mod Absences
mod Sales
mod Issues
mod Shares
