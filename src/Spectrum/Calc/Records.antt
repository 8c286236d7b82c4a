-- ===== src/Spectrum/Calc/Records.antt =====
-- How the records of sigApp/src/fftcalc.cpp find their `Calc` by its name, and the records of the two
-- totals.
use pscdrv.Common.{
  ℕ, List, Bool, true, false, Option, none, some, lookup, insert, lookup-insert, if◌then◌else◌, ◌≡◌,
  arith, Option-cases, inl, inr,
}
use pscdrv.Outcome.{Error, runtime_error}
use pscdrv.Dev.Analog.{Floats, Scaling, egu_to_raw}
use pscdrv.Spectrum.Calc.{Calc}

-- `calcs_t`. A name is a number here; it stands for the pointer too, since a calculation is never
-- removed and never entered again.
abbrev Calcs : Type 0 → Type 0
Calcs Double = List (ℕ × Calc Double)

module _ {Double : Type 0} where
  abbrev with_name : Option (Calc Double) → Calc Double → ℕ → Calcs Double → Calcs Double
  with_name none fresh name calcs = insert name fresh calcs
  with_name (some c) fresh name calcs = calcs

  -- The map and DPVT afterwards. `fresh` is what the constructor of `Calc` makes.
  unfoldable common_init : Calc Double → ℕ → Calcs Double → Calcs Double × ℕ
  common_init fresh name calcs = (with_name (lookup name calcs) fresh name calcs, name)

-- The type of the input link of an input waveform.
data InpType : Type 0 where
  constant link other : InpType

-- What `init_wf_in` does: the link's type is refused, it throws into its CATCH, or the record is bound.
-- `cleared` is set where it sets NORD to 0, which it does before it can throw.
data WfInit (S : Type 0) : Type 0 where
  bad_field : WfInit S
  caught : Error → (cleared : Bool) → WfInit S
  bound_to : S → (cleared : Bool) → WfInit S

module _ {Double : Type 0} where
  abbrev named : Option ℕ → Bool → Calc Double → Calcs Double → WfInit (Calcs Double × ℕ)
  named none cleared fresh calcs = caught (runtime_error "Missing info(CALCNAME") cleared
  named (some name) cleared fresh calcs = bound_to (common_init fresh name calcs) cleared

  abbrev of_doubles :
      Bool → Option ℕ → Bool → Calc Double → Calcs Double → WfInit (Calcs Double × ℕ)
  of_doubles false info cleared fresh calcs = caught (runtime_error "Unsupported FTVL") cleared
  of_doubles true info cleared fresh calcs = named info cleared fresh calcs

  -- `info` is the record's CALCNAME; `is_double` tells that FTVL is DOUBLE.
  unfoldable init_wf_in :
      InpType → Bool → Option ℕ → Calc Double → Calcs Double → WfInit (Calcs Double × ℕ)
  init_wf_in constant is_double info fresh calcs = of_doubles is_double info true fresh calcs
  init_wf_in link is_double info fresh calcs = of_doubles is_double info false fresh calcs
  init_wf_in other is_double info fresh calcs = bad_field

  abbrev found : Option (Calc Double) → ℕ → Option ℕ
  found none name = none
  found (some c) name = some name

  -- What `set_wf_input` does about DPVT first: a null pointer is looked up again by CALCNAME, and it
  -- stays null where there is no such name, with which the call ends.
  unfoldable find_again : Option ℕ → Option ℕ → Calcs Double → Option ℕ
  find_again (some priv) info calcs = some priv
  find_again none none calcs = none
  find_again none (some name) calcs = found (lookup name calcs) name

-- The fields of an ai record that the code sets; `tse_device` tells that TSE is -2.
record Ai (Double : Type 0) : Type 0 where
  pub val : Double
  pub udf : Bool
  pub tse_device : Bool
  pub time : ℕ

module _ (fl : Floats) where
  open fl use {Real}

  abbrev get_total : Real → Scaling Real → Calc Real → Ai Real → Ai Real
  get_total total s c prec = record prec {
    val = egu_to_raw fl s total;
    udf = false;
    time = if prec.tse_device then c.timeout else prec.time;
  }

  -- The record, and the number that is returned.
  unfoldable get_totalptime : Scaling Real → Option (Calc Real) → Ai Real → Ai Real × ℕ
  get_totalptime s none prec = (prec, 0)
  get_totalptime s (some c) prec = (get_total c.totalpowertime s c prec, 2)

  unfoldable get_totalpfreq : Scaling Real → Option (Calc Real) → Ai Real → Ai Real × ℕ
  get_totalpfreq s none prec = (prec, 0)
  get_totalpfreq s (some c) prec = (get_total c.totalpowerfreq s c prec, 2)

-- A second record with the same name is bound to the same calculation, and the map stays as it is.
common_init-common_init :
    {Double : Type 0} (fresh spare : Calc Double) (name : ℕ) (calcs : Calcs Double)
    → common_init spare name (common_init fresh name calcs).0 ≡ common_init fresh name calcs
unfolding common_init
common_init-common_init fresh spare name calcs = elim (Option-cases (lookup name calcs)) [
  | inl e ↦ ground (arith, lookup-insert name name fresh calcs)
  | inr (c, e) ↦ ground arith
]

-- Binding a record leaves every calculation that the map holds.
lookup-common_init :
    {Double : Type 0} (fresh c : Calc Double) (name j : ℕ) (calcs : Calcs Double)
    → lookup j calcs ≡ some c
    → lookup j (common_init fresh name calcs).0 ≡ some c
unfolding common_init
lookup-common_init fresh c name j calcs held = elim (Option-cases (lookup name calcs)) [
  | inl e ↦ ground (arith, lookup-insert name j fresh calcs)
  | inr (d, e) ↦ ground arith
]
