-- ===== src/Net/Tests.antt =====
-- Prefixes of both families at examples.
