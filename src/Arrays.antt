-- ===== src/Arrays.antt =====
-- The array subroutines of pscApp/src/aSubOperations.cpp, one function for each of them: what it makes
-- of the fields of its record.
pub mod Window
pub mod Select
pub mod Fft
pub mod Adc
pub mod Compare
mod Tests
