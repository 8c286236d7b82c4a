-- ===== src/Dev.antt =====
-- The device support that ties records to a PSC (coreApp/src/psc/devcommon.h and the files
-- coreApp/src/dev*.cpp): a module for each file, and one for what they share.
pub mod Link
pub mod Analog
pub mod Reg
pub mod Wf
pub mod Text
pub mod Ctrl
pub mod Single
pub mod Init
mod Tests
