-- ===== src/Rewrite/Recorded/Counted.antt =====
-- That each payload of the hook is counted once, by its verdict.
