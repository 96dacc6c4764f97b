-- ===== src/Web.antt =====
-- error_handlers.py (packages/infra-fastapi): what the web layer lets out of the context of an
-- exception.
pub mod Sanitize
mod Tests
