-- ===== src/Opportunity/ProgressTests.antt =====
-- A new opportunity that can be brought to confirmed savings, to the end without them, and back.
use procure_foundation.Prelude.{◌≡◌, refl, arith}
use procure_foundation.Result.{ok, err, conflict}
use procure_foundation.Opportunity.Model.{identified, realised, rejected, Register}
use procure_foundation.Opportunity.Service.{
  RealisedSavings, advance_waterfall_stage, record_realised_savings,
}
use procure_foundation.Opportunity.Tests.{created, savings, settled}
use procure_foundation.Opportunity.Progress.{Forwards, IsConfirmed, record_realised_savings-reached}
use procure_foundation.Opportunity.Endings.{
  IsUntouched, advance_waterfall_stage-unconfirmed, record_realised_savings-restarted,
}

record_realised_savings-reached_example :
    (reached : Register) × (settled : Register) × Forwards 7 104 created reached
    × IsConfirmed 7 104 savings reached settled
record_realised_savings-reached_example =
    record_realised_savings-reached 7 104 savings created 0 refl (omega arith) (omega arith)

advance_waterfall_stage-unconfirmed_example :
    (ended : Register) × Forwards 7 104 created ended
    × (ended.opportunity.status ≡ realised)
    × IsUntouched created ended
    × ((s : RealisedSavings) → record_realised_savings 7 104 s ended ≡ err conflict)
advance_waterfall_stage-unconfirmed_example =
    advance_waterfall_stage-unconfirmed 7 104 created 0 refl (omega arith)

-- An opportunity whose savings are confirmed already.
record_realised_savings-restarted_example :
    (refused : Register) × (restarted : Register) × (reached : Register) × (again : Register)
    × (advance_waterfall_stage 7 110 rejected settled ≡ ok refused)
    × (advance_waterfall_stage 7 110 identified refused ≡ ok restarted)
    × Forwards 7 110 restarted reached
    × IsUntouched settled reached
    × IsConfirmed 7 110 savings reached again
record_realised_savings-restarted_example =
    record_realised_savings-restarted 7 110 savings settled (omega arith)
