-- ===== src/Stream/Calls.antt =====
-- The order of the calls that a stream transport makes (aiofastnet/transport.pyx).
pub mod Flow
pub mod Lifecycle
