-- ===== src/Scenarios/Tables.antt =====
-- Two rows of the table of legal moves.
