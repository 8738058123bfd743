-- ===== src/Tests/Rates.antt =====
-- The theorems on rates at concrete inputs.
