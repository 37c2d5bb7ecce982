-- ===== src/Session/Payload.antt =====
-- `DurableSessionPayload` and the results of operations, as durability/session_payload.py keeps them.
use agnostic_market.Base.{ℕ, Bool, ◌&&◌, Option, none, List, [], all, not, null}
use agnostic_market.Text.{Text, strip}
use agnostic_market.Cart.Types.{CartMutationRecord}
use agnostic_market.Cart.State.{CartSessionState, unique}
use agnostic_market.Session.Recent.{RecentOrderSnapshot, empty_snapshot, is_canonical}

-- A `PrincipalRetirementMarker` is its transition id.
unfoldable pub valid_marker : Text → Bool
valid_marker transition_id = not (null (strip transition_id))

pub record DurableSessionPayload : Type 0 where
  pub cart : CartSessionState
  pub recent_orders : RecentOrderSnapshot
  pub guest_order_refs : List Text
  pub principal_retirement : Option Text

abbrev pub empty_payload : DurableSessionPayload
empty_payload = record {
  cart = record { lines = []; mutation_receipts = [] };
  recent_orders = empty_snapshot;
  guest_order_refs = [];
  principal_retirement = none;
}

-- `guest_order_refs_are_canonical`
unfoldable pub valid_payload : DurableSessionPayload → Bool
unfolding unique is_canonical
valid_payload p = unique p.guest_order_refs && all is_canonical p.guest_order_refs

pub data SessionOperationResult : Type 0 where
  no_result : SessionOperationResult
  cart_mutation : CartMutationRecord → SessionOperationResult

pub record SessionOperationReceiptPayload : Type 0 where
  pub operation_id : Text
  pub request_fingerprint : Text
  pub result : SessionOperationResult

abbrev pub session_payload_schema_version : ℕ
session_payload_schema_version = 2

abbrev pub session_operation_result_schema_version : ℕ
session_operation_result_schema_version = 2

-- The JSON of pydantic, `model_dump_json` and `model_validate_json`, where `none` is an error.
pub record PayloadJson : Type 0 where
  pub dump_payload : DurableSessionPayload → Text
  pub load_payload : Text → Option DurableSessionPayload
  pub dump_receipt : SessionOperationReceiptPayload → Text
  pub load_receipt : Text → Option SessionOperationReceiptPayload
