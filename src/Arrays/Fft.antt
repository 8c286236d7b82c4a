-- ===== src/Arrays/Fft.antt =====
-- `WavetableStorage`, `fftworker` and `subFFT` of pscApp/src/aSubOperations.cpp: a transform in a thread
-- of its own, between two processings of the record.
pub mod Phases
pub mod Reached
use pscdrv.Common.{
  ℕ, zero, suc, List, [], ◌∷◌, length, get_or, take, replicate, overwrite, lookup, insert, Bool,
  true, false, Option, none, some, ltb, if◌then◌else◌, ◌+◌, ◌*◌,
}
use pscdrv.Floating.{Floating}

-- The FFT library: the table for a size, the transform of the data in place, and the real and
-- imaginary parts that it stands for. The transform is nothing where the library calls its error handler,
-- which by default ends the program.
pub record Library (Double : Type 0) : Type 1 where
  pub Wavetable : Type 0
  pub alloc : ℕ → Wavetable
  pub transform : Wavetable → List Double → Option (List Double)
  pub unpack : List Double → List Double

-- `getWavetable`
unfoldable pub get_wavetable : {W : Type 0} → (ℕ → W) → ℕ → List (ℕ × W) → List (ℕ × W) × W
get_wavetable alloc size tables = elim (lookup size tables) [
  | some w ↦ (tables, w)
  | none ↦ (insert size (alloc size) tables, alloc size)
]

module _ (fl : Floating) (lib : Library fl.Double) where
  open fl use {Double, add, mul, div, of_int, sqrt}

  -- `fftdata`. `signalled` is the event `start`; `requested` is whether the callback is queued. `done`
  -- is not initialised, and `samples` is the field `data`.
  pub record FftData : Type 0 where
    pub done : Bool
    pub signalled : Bool
    pub requested : Bool
    pub count : ℕ
    pub samples : List Double
    pub cmplx_coeffs : List Double
    pub real : lib.Wavetable

  -- The record, and the storage of tables.
  pub record Sub : Type 0 where
    pub pact : Bool
    pub dpvt : Option FftData
    pub vala : List Double
    pub nova : ℕ
    pub wtmap : List (ℕ × lib.Wavetable)

  -- How a processing ends: status 0, status -2, or a failed assertion.
  pub data Processed : Type 0 where
    processed : Sub → Processed
    no_memory : Sub → Processed
    aborted : Processed

  -- What `new` and `malloc` leave in memory, and whether every allocation succeeds. The arrays have
  -- NEA and twice NEA places.
  pub record Fresh : Type 0 where
    pub allocated : Bool
    pub done : Bool
    pub junk : Double

  -- The loop at the end, from place `i` on, for `n` places.
  unfoldable pub magnitudes : ℕ → List Double → ℕ → ℕ → List Double
  magnitudes count c i zero = []
  magnitudes count c i (suc n) =
      let re = get_or c (2 * i) (of_int 0) in
      let im = get_or c (2 * i + 1) (of_int 0) in
      div (sqrt (add (mul re re) (mul im im))) (of_int count) ∷ magnitudes count c (suc i) n

  -- The second half of `subFFT`, on NOA elements of A.
  unfoldable pub with_priv : List Double → FftData → Sub → Sub
  unfolding magnitudes
  with_priv a f s =
      if s.pact
      then record s {
        pact = false;
        vala = overwrite (magnitudes f.count f.cmplx_coeffs 0 f.count) s.vala;
        nova = f.count;
      }
      else record s {
        pact = true;
        dpvt =
            some (record f { signalled = true; count = length a; samples = overwrite a f.samples });
      }

  unfoldable pub new_fftdata : Fresh → ℕ → ℕ → lib.Wavetable → FftData
  new_fftdata fresh nea noa w = record {
    done = fresh.done;
    signalled = false;
    requested = false;
    count = noa;
    samples = replicate nea fresh.junk;
    cmplx_coeffs = replicate (2 * nea) fresh.junk;
    real = w;
  }

  unfoldable pub sub_fft : Fresh → ℕ → ℕ → List Double → Sub → Processed
  unfolding with_priv new_fftdata get_wavetable
  sub_fft fresh nea neva a s =
      let (wtmap, w) = get_wavetable lib.alloc nea s.wtmap in
      let s' = record s { wtmap = wtmap } in
      let f = new_fftdata fresh nea (length a) w in
      if ltb neva nea then aborted else (elim s.dpvt [
        | some g ↦ processed (with_priv a g s)
        | none ↦
            if fresh.allocated
            then processed (with_priv a f (record s' { dpvt = some f }))
            else no_memory s'
      ])

  abbrev pub with_output : FftData → Option (List Double) → Option FftData
  with_output f none = none
  with_output f (some out) = some (record f {
    signalled = false;
    samples = overwrite out f.samples;
    cmplx_coeffs = overwrite (lib.unpack out) f.cmplx_coeffs;
    requested = true;
  })

  -- One round of `fftworker`, where the event is up and `done` is not.
  unfoldable pub fftworker : FftData → Option FftData
  fftworker f = with_output f (lib.transform f.real (take f.count f.samples))
