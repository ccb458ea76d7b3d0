-- ===== src/Pool/Fix/Rounds.antt =====
-- One round of a fix, on every branch.
