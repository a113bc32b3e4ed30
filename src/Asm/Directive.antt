-- ===== src/Asm/Directive.antt =====
-- The directives of asm/internal/directive.c.
pub mod Datum
pub mod Range
pub mod Handlers
pub mod Apply
