-- ===== src/Arrays/Adc.antt =====
-- `subADCWfProc` of pscApp/src/aSubOperations.cpp. B and C are not negative.
pub mod Samples
use pscdrv.Common.{
  ℕ, zero, suc, List, [], ◌∷◌, ◌++◌, length, get_or, replicate, overwrite, Bool, leb, ltb, ◌==◌,
  not, Option, none, some, if◌then◌else◌, ◌+◌, ◌-◌, ◌*◌, ◌/◌, ◌%◌, ◌^◌,
}
use pscdrv.Floating.{Floating}

-- `tempS2` of `tempS1`, both as 16 bits.
unfoldable pub swap_bytes : ℕ → ℕ
swap_bytes s = s % 256 * 256 + s / 256

-- `shift`: how many samples of a long reading are passed over.
abbrev pub shift : ℕ → ℕ
shift read_length = if ltb 1500 read_length then 4 else 0

abbrev pub last_of {ℓ} : {A : Type ℓ} → A → List A → A
last_of d [] = d
last_of d (x ∷ xs) = last_of x xs

module _ (fl : Floating) where
  open fl use {Float, Double, div, of_int, narrow, minus, literal}

  -- A sample in volts. The cast to short goes by way of int, and `tempS2` is signed.
  unfoldable pub volts : Double → Float
  unfolding swap_bytes
  volts x =
      let s = swap_bytes (fl.to_int x % 2 ^ 16) in
      let tenths = if leb (2 ^ 15) s then minus (of_int (2 ^ 16 - s)) else of_int s in
      narrow (div tenths (literal "3276.6"))

  -- The `n` samples from place `j` on. `beyond j` is what memory holds at place `j` of the array where
  -- it has no such sample.
  unfoldable pub samples : (ℕ → Double) → List Double → ℕ → ℕ → List Double
  samples beyond a j zero = []
  samples beyond a j (suc n) = get_or a j (beyond j) ∷ samples beyond a (suc j) n

  -- The loop, on the samples that are left: an even sample waits in `tempF`, and goes out after the
  -- odd one.
  unfoldable pub exchange : List Double → List Float
  unfolding volts
  exchange (even ∷ odd ∷ rest) = volts odd ∷ volts even ∷ exchange rest
  exchange _ = []

  -- VALA with the volts in it and `fill` copies of the last behind them, where it has room for
  -- all of that and there is a last one to copy.
  unfoldable pub store_volts : ℕ → List Float → List Float → Option (List Float)
  store_volts fill [] vala = if fill == 0 then some vala else none
  store_volts fill (first ∷ more) vala =
      let out = (first ∷ more) ++ replicate fill (last_of first more) in
      if leb (length out) (length vala) then some (overwrite out vala) else none

  -- VALA after the call, from what it holds, where no other memory is written.
  unfoldable pub adc_wf_proc : (ℕ → Double) → List Double → ℕ → ℕ → List Float → Option (List Float)
  unfolding samples exchange store_volts
  adc_wf_proc beyond a read_length wf_length vala =
      let n = read_length - shift read_length in
      store_volts (wf_length - n) (exchange (samples beyond a (shift read_length) n)) vala
