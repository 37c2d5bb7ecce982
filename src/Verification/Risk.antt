-- ===== src/Verification/Risk.antt =====
-- `RiskProvider`: whether the factor of a subject can be trusted.
use agnostic_market.Base.{Bool, List, not, if◌then◌else◌}
use agnostic_market.Text.{Text, text_eq}
use agnostic_market.Effect.{Result, ok, err, value_error}
use agnostic_market.Orders.Types.{normalize_tenant_id}
use agnostic_market.Verification.Types.{VerificationSubject}

pub data RiskDecision : Type 0 where
  clear blocked : RiskDecision

-- `purpose` is the constant cancel.
pub record OrderRiskSubject : Type 0 where
  pub tenant_id : Text
  pub session_id : Text
  pub order_refs : List Text

pub data RiskSubject : Type 0 where
  customer : VerificationSubject → RiskSubject
  orders : OrderRiskSubject → RiskSubject

abbrev pub tenant_of : RiskSubject → Text
tenant_of (customer s) = s.tenant_id
tenant_of (orders s) = s.tenant_id

pub record RiskProvider : Type 0 where
  pub tenant_id : Text
  pub flagged : Bool

unfoldable pub new_risk_provider : Text → Bool → Result RiskProvider
new_risk_provider tenant flagged = elim (normalize_tenant_id tenant) [
  | err e ↦ err e
  | ok normalized ↦ ok (record { tenant_id = normalized; flagged = flagged })
]

unfoldable pub assess : RiskSubject → RiskProvider → Result RiskDecision
assess subject p =
    if not (text_eq (tenant_of subject) p.tenant_id)
    then err value_error
    else ok (if p.flagged then blocked else clear)
