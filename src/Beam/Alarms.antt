-- ===== src/Beam/Alarms.antt =====
-- Alarms counted over several records: pscApp/src/subCalcAlarm.c.
pub mod Levels
use pscdrv.Common.{
  ℕ, zero, suc, List, [], ◌∷◌, length, Bool, true, false, not, ◌&&◌, Option, none, some, leb, ltb,
  ◌==◌, if◌then◌else◌, ◌+◌,
}
use pscdrv.Floating.{Floating}

-- `noAlarmCount`, `minorAlarmCount`, `majorAlarmCount` and `invalidAlarmCount`, with `n`.
pub record Counts : Type 0 where
  pub no_alarm : ℕ
  pub minor : ℕ
  pub major : ℕ
  pub invalid : ℕ
  pub n : ℕ

abbrev pub no_counts : Counts
no_counts = record { no_alarm = 0; minor = 0; major = 0; invalid = 0; n = 0 }

-- The `if` chain over a severity, and `n++`.
abbrev pub tally : ℕ → Counts → Counts
tally severity k =
    let k' : Counts = record k { n = k.n + 1 } in
    if severity == 0
    then record k' { no_alarm = k.no_alarm + 1 }
    else if severity == 1
    then record k' { minor = k.minor + 1 }
    else if severity == 2
    then record k' { major = k.major + 1 }
    else if severity == 3
    then record k' { invalid = k.invalid + 1 }
    else k'

-- The choice at the end, with `least` alarms of a severity; `none` keeps the value.
abbrev pub level : ℕ → Counts → Option ℕ
level least k =
    if leb least k.major
    then some 2
    else if leb least k.minor
    then some 1
    else if leb least k.invalid
    then some 3
    else if leb k.n k.no_alarm
    then some 0
    else none

module _ (fl : Floating) where
  open fl use {Double, eq, of_int, to_int}

  -- A value with whether its link is a DB_LINK or a CA_LINK.
  abbrev pub Input : Type 0
  Input = Bool × Double

  abbrev pub tally_double : Double → Counts → Counts
  tally_double v k =
      let k' : Counts = record k { n = k.n + 1 } in
      if eq v (of_int 0)
      then record k' { no_alarm = k.no_alarm + 1 }
      else if eq v (of_int 1)
      then record k' { minor = k.minor + 1 }
      else if eq v (of_int 2)
      then record k' { major = k.major + 1 }
      else if eq v (of_int 3)
      then record k' { invalid = k.invalid + 1 }
      else k'

  abbrev pub set_val : Double → Option ℕ → Double
  set_val val none = val
  set_val val (some v) = of_int v

  -- The loop of `subCalcAlarm` over the first inputs; `none` where there are not as many.
  unfoldable pub calc_counts : ℕ → List Input → Counts → Option Counts
  calc_counts zero inputs k = some k
  calc_counts (suc i) [] k = none
  calc_counts (suc i) ((linked, v) ∷ inputs) k =
      calc_counts i inputs (if linked then tally_double v k else k)

  -- `k` is `(int)prec->k`, where that is not below 0. The new VAL.
  unfoldable pub sub_calc_alarm : ℕ → List Input → Double → Option Double
  unfolding calc_counts
  sub_calc_alarm k inputs val = elim (calc_counts k inputs no_counts) [
    | none ↦ none
    | some counts ↦ some (set_val val (level 1 counts))
  ]

  -- The loop of `subAlarmCalcProc`: a linked input is the connection state of the value behind it, and
  -- takes two places; any other takes one.
  unfoldable pub alarm_counts : ℕ → List Input → Counts → Option Counts
  alarm_counts zero inputs k = some k
  alarm_counts (suc i) [] k = none
  alarm_counts (suc i) ((false, v) ∷ inputs) k = alarm_counts i inputs k
  alarm_counts (suc i) ((true, v) ∷ []) k = none
  alarm_counts (suc i) ((true, v) ∷ (_, w) ∷ inputs) k =
      alarm_counts i inputs
        (if not (to_int v == 0) then tally (to_int w) k else record k { invalid = k.invalid + 1 })

  unfoldable pub sub_alarm_calc_proc : List Input → Double → Option Double
  unfolding alarm_counts
  sub_alarm_calc_proc inputs val = elim (alarm_counts 6 inputs no_counts) [
    | none ↦ none
    | some counts ↦ some (set_val val (level 2 counts))
  ]

-- One of the ten pairs of `asubAlarmCalcProc`: whether the first is linked, and the two values.
pub record Pair : Type 0 where
  pub linked : Bool
  pub state : ℕ
  pub severity : ℕ

unfoldable pub pair_counts : List Pair → Counts → Counts
pair_counts [] k = k
pair_counts (p ∷ ps) k =
    pair_counts ps (if not (p.state == 0) && p.linked then tally p.severity k else k)

-- `AlarmLevel`, of the pairs A B, C D, to S T.
unfoldable pub asub_alarm_calc_proc : List Pair → ℕ
unfolding pair_counts
asub_alarm_calc_proc pairs = elim (level 2 (pair_counts pairs no_counts)) [ none ↦ 0 | some l ↦ l ]
