-- ===== src/EnvFile/Tests.antt =====
-- A merge into an env file of two lines.
