-- ===== src/Lib.antt =====
-- The EPICS driver for portable streaming controllers (PSC): its message protocol, its TCP and UDP
-- drivers, the device support that ties records to them, the ramp tables of a power supply,
-- the subroutines on arrays and the power spectra.
--
-- A PSC and the driver exchange messages: the bytes `P` and `S`, a 16 bit message ID, a 32 bit length
-- and a body. The driver keeps a block for each message ID that a record names. The TCP driver decodes
-- the stream of its connection, puts each body into its block and has the records of that block
-- processed; it queues messages that records send, hands them over to libevent on a flush, and
-- connects again after a loss. The UDP driver takes each datagram for one message. Device support
-- reads and writes registers, waveforms and strings inside blocks.
--
-- The files, and the code that each one models:
-- - Common: helpers on lists and numbers, for no code of their own.
-- - Wire: byte order, `hton`, `ntoh` and `bytes2val` of coreApp/src/psc/devcommon.h.
-- - CbList: `CBList` of coreApp/src/psc/cblist.h.
-- - Block: `Block` of coreApp/src/psc/device.h, `getSend` and `getRecv` of coreApp/src/pscbase.cpp.
-- - Recv: the loop of `PSC::recvdata` in coreApp/src/psc.cpp. `step` is one round of it, `receive` the
--   loop. The fuel of `receive` is one more than the bytes in the buffer, and each round takes one.
-- - Outcome: exceptions, failed assertions and uses of a null pointer, as values.
-- - Psc: `PSC` and `PSCBase`. Psc/State has the fields, Psc/Send `queueSend`, `flushSend` and `send`,
--   Psc/Link `connect`, `reconnect`, `eventcb`, `recvdata` and the callbacks of
--   coreApp/src/pscwrap.cpp. Psc/Live has what happens from outside, and Psc/Reached
--   the histories of it as a relation on states.
-- - Udp: `PSCUDP` of coreApp/src/pscudp.cpp.
-- - Table: pscApp/src/psctbl.cpp. Table has `TableController`, `parse_link_table` and the handlers that
--   set a field, Table/Ramp `check_ramp_function`, Table/Pack `sub10kPack__`, Table/Transient
--   `calcTransientTable` and Table/Update `proc_update_target`, which sends through Psc.
-- - Floating: the operations on float and double that Table, Arrays, Captures and Spectrum are given.
-- - Arrays: pscApp/src/aSubOperations.cpp. Arrays/Fft has `subFFT` with its worker thread, Arrays/Window
--   `subArrayMovingAverage`, Arrays/Compare `subArrayCompare`, Arrays/Adc `subADCWfProc` and
--   Arrays/Select the others. The fuel of `subSampling` is one more than the elements of A
--   (Arrays/Select/Fuel).
-- - Captures: pscApp/src/aSubGen.cpp and pscApp/src/aSubEnc.cpp, but for the text of decimal numbers.
-- - Spectrum: `PSDCalc` of sigApp/src/fftwrap.cpp; Spectrum/Steps has `calculate`. Spectrum/Calc has the
--   records of sigApp/src/fftcalc.cpp, which Spectrum/Calc/Records binds to a calculation by its name, and
--   Spectrum/Calc/Run the worker, which runs `calculate`.
-- - Beam: subroutines of beam instrumentation. Beam/Alarms is pscApp/src/subCalcAlarm.c, Beam/Positions
--   bpm_aSubUtils.c, posPolyCoeffCal.c and slicer2.c beside it, Beam/Deviation saRmsCal.c and saStdCal.c.
-- - Registry: the drivers by name, `startAll` and the shell's commands of coreApp/src/pscbase.cpp.
-- - Dev: the device support. Dev/Link has `Priv`, `parse_link`, `setRecTimestamp` and `CATCH`,
--   Dev/Analog the analog conversions, Dev/Reg coreApp/src/devPSCReg.cpp, Dev/Wf
--   coreApp/src/devPSCWf.cpp, Dev/Text coreApp/src/devPSCString.cpp, Dev/Ctrl
--   coreApp/src/devPSCCtrl.cpp and Dev/Single coreApp/src/devPSCSingle.cpp.
--   Dev/Init has the init functions of all of these files.
-- - Target: the server that an embedded PSC runs, the other end of the connection. Target/Socket is
--   what `send` and `recv` do, Target/Msg targetApp/pscmsg.c, Target/Listener targetApp/listener.c and
--   Target/App targetApp/pscapp.c. Target/Exchange has the driver at one end and the server at the
--   other. The loops of pscmsg.c move a byte in each round that goes on, so their fuel is the bytes
--   asked for; `client_loop` has one more than the bytes to come, and `psc_send` one more than the
--   clients in memory.
-- - Xbpm: the server of xbpmApp/target. Xbpm has `freeconn`, the sending and `onconn`, Xbpm/Reads
--   `connread`, whose fuel is twice the bytes to read and two more, since two rounds take eight bytes.
--
-- Numbers are natural numbers; a C integer is its bit pattern and wraps where the code's type does,
-- with a size_t and a long of 64 bits. Bytes are numbers below 256. The byte order of the machine,
-- the clock, what libevent and the sockets answer, the floating point of the machine and the libraries
-- for linear equations, FFT and statistics are arguments. `Floating` has no laws: a theorem that needs
-- some names them.
-- Pointers to blocks are keys of the block maps, since blocks are never removed. A scan request and the
-- call of a listener are entries of a log, in order.
--
-- Not modelled: printing and reports, the lack of memory where no result names it, threads and locks
-- (every method runs as a whole; the rounds of the worker in Arrays/Fft are steps between others), the
-- event loop of coreApp/src/evbase.cpp, the parsing of text by `istringstream` (its results are
-- arguments), the `main` functions, which only set up libraries, and waveANLApp, which is a copy of
-- another project's record type.
pub mod Common
pub mod Wire
pub mod Xbpm
pub mod CbList
pub mod Beam
pub mod Block
pub mod Recv
pub mod Outcome
pub mod Psc
pub mod Udp
pub mod Floating
pub mod Table
pub mod Target
pub mod Arrays
pub mod Captures
pub mod Spectrum
pub mod Registry
pub mod Dev
