-- ===== src/Dev/Init/Bindings.antt =====
-- A record that its init function has bound finds its block: the handlers use no null pointer.
use pscdrv.Common.{ℕ, Option, none, some, ◌≡◌, ◌≢◌, ◌⊎◌, ◌*◌, ◌%◌, ◌^◌}
use pscdrv.Psc.State.{Psc}
use pscdrv.Dev.Link.{Priv, block_of, Rec}
use pscdrv.Dev.Init.{Link, bound, init_input, init_rb, init_output}

-- The block of a `Priv` is in the map that it points into, under its code.
abbrev pub HasBlock : Priv → Psc → Type 0
HasBlock v p = block_of v p ≢ none

-- A record of a type that shifts its mask has it shifted, in 32 bits, by the shift that is given here.
abbrev pub shifted : {Real : Type 0} → Option ℕ → Rec Real → Rec Real
shifted none r = r
shifted (some shft) r = record r { mask = r.mask * 2 ^ shft % 2 ^ 32 }

-- One of the three init functions of the records of registers binds the record.
abbrev pub IsBound : {Real : Type 0} → Link → Option ℕ → Rec Real → Rec Real → Psc → Priv → Type 0
IsBound l shft r r' p v =
    (init_input l shft r ≡ bound r' p v)
    ⊎ (init_rb l shft r ≡ bound r' p v)
    ⊎ (init_output l shft r ≡ bound r' p v)
