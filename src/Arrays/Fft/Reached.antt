-- ===== src/Arrays/Fft/Reached.antt =====
-- What holds in every state that a record with `subFFT` reaches.
use pscdrv.Floating.{Floating}
