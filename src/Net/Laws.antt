-- ===== src/Net/Laws.antt =====
-- Which addresses a prefix contains (api/src/net/prefix.ts, `prefixContains`).
