-- ===== src/Invoices/Balance.antt =====
-- The issuing entry of an invoice balances (backend/apps/sales/services/invoice_workflow.py).
