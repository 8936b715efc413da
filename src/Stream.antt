-- ===== src/Stream.antt =====
-- The byte-stream transport (aiofastnet/transport.pyx).
pub mod Kernel
pub mod Watermarks
pub mod State
pub mod Write
pub mod Lines
pub mod Sendfile
pub mod Drain
pub mod Run
pub mod Delivery
pub mod Stable
pub mod Calls
