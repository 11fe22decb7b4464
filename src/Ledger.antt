-- ===== src/Ledger.antt =====
-- The general ledger: backend/apps/accounting.
pub mod Model
pub mod Draft
pub mod Fx
pub mod Numbering
pub mod Balances
pub mod Guards
pub mod Posting
pub mod Reports
pub mod Corrections
pub mod Periods
