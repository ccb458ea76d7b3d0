-- ===== src/Pool/Allocate/Refused.antt =====
-- An allocation that fails gives its frame back.
