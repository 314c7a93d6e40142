-- ===== src/Transaction/Names.antt =====
-- The names of the phases, in common/bitwrk/transaction.go.
use bitwrk.Base.{◌≡◌, refl, Str-discrete, reverse, ok}
use bitwrk.Transaction.{TxPhase, establishing, marshal_phase, unmarshal_phase}

-- The JSON of a phase is read back as that phase.
pub unmarshal_phase-marshal : (p : TxPhase) → unmarshal_phase (marshal_phase p) ≡ ok p
unfolding unmarshal_phase marshal_phase Str-discrete reverse
unmarshal_phase-marshal establishing = refl
unmarshal_phase-marshal _ = refl
