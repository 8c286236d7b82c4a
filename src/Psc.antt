-- ===== src/Psc.antt =====
-- `class PSC` and its base `PSCBase`: the TCP driver (coreApp/src/psc.cpp, coreApp/src/pscbase.cpp).
pub mod State
pub mod Send
pub mod Link
pub mod Queue
pub mod Flush
pub mod Live
pub mod Reached
mod Tests
