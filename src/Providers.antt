-- ===== src/Providers.antt =====
-- providers: the limiter that the providers share, and the state of the Bailian provider's models.
pub mod Limiter
pub mod Bailian
mod Tests
