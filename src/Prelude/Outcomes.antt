-- ===== src/Prelude/Outcomes.antt =====
-- What a handler that may throw ends with.
use Prim.Native.String.{String}
use mathlib.Core.Option.{Option, none, some}

-- `not_found` is the error that names what is missing, `failed` any other exception.
pub data Outcome (A : Type 0) : Type 0 where
  ok : A → Outcome A
  not_found : String → Outcome A
  failed : Outcome A

-- The end of a computation that may throw.
abbrev pub or_failed : {A : Type 0} → Option A → Outcome A
or_failed none = failed
or_failed (some a) = ok a
