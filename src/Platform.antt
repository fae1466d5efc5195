-- ===== src/Platform.antt =====
-- internal/platform and internal/identity, as far as the modules' services use them: the errors of
-- a call, the collected field errors, who is calling, and what a call leaves in the journals.
pub mod Errors
pub mod Caller
pub mod Journal
