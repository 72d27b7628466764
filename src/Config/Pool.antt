-- ===== src/Config/Pool.antt =====
-- The size of the connection pool is an `int32` of what the environment says
-- (internal/config/config.go).
