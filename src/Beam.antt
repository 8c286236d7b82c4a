-- ===== src/Beam.antt =====
-- The subroutines of beam instrumentation: pscApp/src/subCalcAlarm.c, bpm_aSubUtils.c,
-- posPolyCoeffCal.c, saRmsCal.c, saStdCal.c and slicer2.c.
pub mod Alarms
pub mod Positions
pub mod Deviation
mod Tests
