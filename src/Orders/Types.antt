-- ===== src/Orders/Types.antt =====
-- The records of commerce/orders.py, the cart line of dtos/state.py, and the order store's state.
use agnostic_market.Base.{ℕ, Bool, ◌&&◌, Option, List, [], leb, null, not, if◌then◌else◌, all}
use agnostic_market.Text.{Text, codes, strip}
use agnostic_market.Dict.{Dict}
use agnostic_market.Effect.{Result, ok, err, value_error}
use agnostic_market.Money.{Cents}

-- `CartLine` and `PlacedLine` have the same fields.
pub record Line : Type 0 where
  pub sku : Text
  pub name : Text
  pub price_usd : Cents
  pub quantity : ℕ

-- The field constraints of both line types.
unfoldable pub valid_line : Line → Bool
valid_line l = not (null l.sku) && not (null l.name) && leb 1 l.quantity

pub record OrderEntry : Type 0 where
  pub status : Text
  pub summary : Text
  pub eta : Text
  pub customer_ref : Text
  pub total_usd : Cents
  pub delivered_at : Option Text

pub record PlacedOrder : Type 0 where
  pub order_id : Text
  pub total_usd : Cents
  pub lines : List Line

pub record RefundRecord : Type 0 where
  pub refund_id : Text
  pub order_id : Text
  pub amount_usd : Cents
  pub destination : Text
  pub instrument_ref : Text

pub record CancelRecord : Type 0 where
  pub order_id : Text
  pub summary : Text
  pub total_usd : Cents

pub record ReturnRecord : Type 0 where
  pub rma_id : Text
  pub order_id : Text
  pub summary : Text
  pub refund_due_usd : Cents
  pub destination : Text

-- The field constraints of the records, as pydantic checks them when a record is built.
unfoldable pub valid_placed : PlacedOrder → Bool
unfolding valid_line
valid_placed p = not (null p.order_id) && not (null p.lines) && all valid_line p.lines

unfoldable pub valid_refund : RefundRecord → Bool
valid_refund r =
    not (null r.refund_id)
    && not (null r.order_id)
    && not (null r.destination)
    && not (null r.instrument_ref)

unfoldable pub valid_cancel : CancelRecord → Bool
valid_cancel r = not (null r.order_id) && not (null r.summary)

unfoldable pub valid_return : ReturnRecord → Bool
valid_return r =
    not (null r.rma_id) && not (null r.order_id) && not (null r.summary) && not (null r.destination)

-- The attributes of an `OrderStore`. Its lock makes each call one step.
pub record OrderStore : Type 0 where
  pub tenant_id : Text
  pub orders : Dict OrderEntry
  pub placed_by_key : Dict PlacedOrder
  pub next_seq : ℕ
  pub refunds_by_key : Dict RefundRecord
  pub next_refund_seq : ℕ
  pub cancels_by_key : Dict CancelRecord
  pub cancelled_ids : List Text
  pub returns_by_key : Dict ReturnRecord
  pub next_return_seq : ℕ

-- `normalize_tenant_id` of tenancy/context.py
unfoldable pub normalize_tenant_id : Text → Result Text
normalize_tenant_id tenant =
    let normalized = strip tenant in if null normalized then err value_error else ok normalized

unfoldable pub empty_store : Text → Dict OrderEntry → OrderStore
empty_store tenant orders = record {
  tenant_id = tenant;
  orders = orders;
  placed_by_key = [];
  next_seq = 9001;
  refunds_by_key = [];
  next_refund_seq = 7001;
  cancels_by_key = [];
  cancelled_ids = [];
  returns_by_key = [];
  next_return_seq = 3001;
}

-- `OrderStore(tenant_id, orders)`
unfoldable pub new_store : Text → Dict OrderEntry → Result OrderStore
unfolding normalize_tenant_id empty_store
new_store tenant orders = elim (normalize_tenant_id tenant) [
  | ok normalized ↦ ok (empty_store normalized orders)
  | err e ↦ err e
]

-- The words for a status that the code tests.
abbrev pub processing : Text
processing = codes "processing"

abbrev pub cancelled : Text
cancelled = codes "cancelled"

abbrev pub shipped : Text
shipped = codes "shipped"

abbrev pub delivered : Text
delivered = codes "delivered"
