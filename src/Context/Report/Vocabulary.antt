-- ===== src/Context/Report/Vocabulary.antt =====
-- About app/backend/src/bart/context/report.ts: the report's values and its names.
