-- ===== src/Auth/Access.antt =====
-- auth/server/middleware.rs: which requests the middleware lets through.
use tmcp.Base.{nat_eq, text_eq}
