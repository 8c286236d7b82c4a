-- ===== src/Beam/Alarms/Levels.antt =====
-- What the levels of pscApp/src/subCalcAlarm.c say of the inputs.
use pscdrv.Common.{
  ℕ, zero, suc, List, [], ◌∷◌, length, true, false, not, ◌&&◌, some, leb, ◌==◌, if◌then◌else◌, ◌+◌,
  ◌*◌, ◌≤◌, ◌≡◌, refl, arith,
}
use pscdrv.Floating.{Floating}
use pscdrv.Beam.Alarms.{
  Counts, no_counts, tally, Input, alarm_counts, Pair, pair_counts, asub_alarm_calc_proc,
}

-- How many of the pairs are linked and connected and have this severity.
abbrev pub occurrences : ℕ → List Pair → ℕ
occurrences s [] = 0
occurrences s (p ∷ ps) =
    let rest = occurrences s ps in
    if not (p.state == 0) && p.linked && p.severity == s then suc rest else rest

-- The counts of the loop, from any start.
pair_counts-occurrences :
    (ps : List Pair) (k : Counts)
    → ((pair_counts ps k).major ≡ k.major + occurrences 2 ps)
      × ((pair_counts ps k).minor ≡ k.minor + occurrences 1 ps)
      × ((pair_counts ps k).invalid ≡ k.invalid + occurrences 3 ps)
unfolding pair_counts
pair_counts-occurrences [] k = (omega arith, omega arith, omega arith)
pair_counts-occurrences (p ∷ ps) k =
    let k' : Counts = if not (p.state == 0) && p.linked then tally p.severity k else k in
    let (a, b, c) = pair_counts-occurrences ps k' in (ground arith, ground arith, ground arith)

-- The alarm level is 2 if two connected inputs have a major alarm, else 1 if two have a minor one, else
-- 3 if two are invalid, else 0: one alarm of each kind shows none.
pub asub_alarm_calc_proc-occurrences :
    (ps : List Pair)
    → asub_alarm_calc_proc ps ≡ (
        if leb 2 (occurrences 2 ps)
        then 2
        else if leb 2 (occurrences 1 ps)
        then 1
        else if leb 2 (occurrences 3 ps)
        then 3
        else 0)
unfolding asub_alarm_calc_proc
asub_alarm_calc_proc-occurrences ps = ground (arith, pair_counts-occurrences ps no_counts)

-- Twelve inputs are enough for the six rounds, wherever the links are.
pub alarm_counts_total :
    (fl : Floating) (i : ℕ) (inputs : List (Input fl)) (k : Counts)
    → 2 * i ≤ length inputs
    → (k' : Counts) × (alarm_counts fl i inputs k ≡ some k')
unfolding alarm_counts
alarm_counts_total fl zero inputs k h = (k, refl)
alarm_counts_total fl (suc i) [] k h = absurd (omega arith)
alarm_counts_total fl (suc i) ((false, v) ∷ inputs) k h =
    alarm_counts_total fl i inputs k (omega arith)
alarm_counts_total fl (suc i) ((true, v) ∷ []) k h = absurd (omega arith)
alarm_counts_total fl (suc i) ((true, v) ∷ (_, w) ∷ inputs) k h =
    alarm_counts_total fl i inputs _ (omega arith)
