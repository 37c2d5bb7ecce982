-- ===== src/Session/Recent.antt =====
-- `RecentOrderSnapshot` and `RecentOrderContext` of commerce/orders.py.
use agnostic_market.Base.{
  ℕ, zero, suc, ◌-◌, Bool, true, false, ◌&&◌, Option, none, some, List, [], ◌∷◌, ◌++◌, map, length,
  all, not, null, leb, is_some, if◌then◌else◌,
}
use agnostic_market.Text.{Text, text_eq, normalize, strip}
use agnostic_market.Dict.{mem, add}
use agnostic_market.Effect.{
  Result, ok, err, Action, ◌>>=◌, ◌>>◌, gets, raise_if, modify, validation, value_error,
}
use agnostic_market.Cart.State.{unique}

-- `OrderContextOperation`
pub data OrderContextOperation : Type 0 where
  read_order list_orders place cancel refund return_order : OrderContextOperation

pub record RecentOrderSnapshot : Type 0 where
  pub focused_order_ref : Option Text
  pub order_refs : List Text
  pub operation : Option OrderContextOperation
  pub outcomes : List (Text × Text)
  pub complete : Bool

-- A reference is canonical: not empty, and as `strip` and `upper` leave it.
unfoldable pub is_canonical : Text → Bool
is_canonical ref = not (null ref) && text_eq ref (normalize ref)

-- `references_are_coherent`
unfoldable pub valid_snapshot : RecentOrderSnapshot → Bool
unfolding is_canonical unique
valid_snapshot s =
    unique s.order_refs
    && all is_canonical s.order_refs
    && (if is_some s.operation then not (null s.order_refs) else null s.order_refs)
    && (elim s.focused_order_ref [ none ↦ true | some ref ↦ mem ref s.order_refs ])
    && all (λ o. mem o.0 s.order_refs) s.outcomes

pub record RecentOrderContext : Type 0 where
  pub max_refs : ℕ
  pub snapshot : RecentOrderSnapshot

abbrev pub empty_snapshot : RecentOrderSnapshot
empty_snapshot = record {
  focused_order_ref = none;
  order_refs = [];
  operation = none;
  outcomes = [];
  complete = true;
}

-- `RecentOrderContext(max_refs=...)`
unfoldable pub new_context : ℕ → Result RecentOrderContext
new_context max_refs =
    if leb 1 max_refs
    then ok (record { max_refs = max_refs; snapshot = empty_snapshot })
    else err value_error

-- `dict.fromkeys` on top of the keys seen so far
unfoldable pub dedupe : List Text → List Text → List Text
dedupe seen [] = seen
dedupe seen (ref ∷ refs) = dedupe (add ref seen) refs

-- `(ref.strip().upper() for ref in order_refs if ref.strip())`
unfoldable pub named_refs : List Text → List Text
named_refs [] = []
named_refs (ref ∷ refs) =
    let rest = named_refs refs in if null (strip ref) then rest else normalize ref ∷ rest

unfoldable pub drop {ℓ} : {A : Type ℓ} → ℕ → List A → List A
drop zero xs = xs
drop (suc n) [] = []
drop (suc n) (x ∷ xs) = drop n xs

-- `refs[-max_refs:]`
unfoldable pub last_refs : ℕ → List Text → List Text
unfolding drop
last_refs max_refs refs = drop (length refs - max_refs) refs

-- The reference in focus: the one that is named, or the only one that is kept.
unfoldable pub focus_of : Option Text → List Text → Option Text
focus_of (some (c ∷ cs)) kept = some (normalize (c ∷ cs))
focus_of (some []) (ref ∷ []) = some ref
focus_of (some []) _ = none
focus_of none (ref ∷ []) = some ref
focus_of none _ = none

-- A focus that was cut off takes the place of the oldest reference.
unfoldable pub keep_focus : Option Text → List Text → List Text
unfolding drop
keep_focus none kept = kept
keep_focus (some ref) kept = if mem ref kept then kept else drop 1 kept ++ ref ∷ []

unfoldable pub outcomes_in : List Text → List (Text × Text) → List (Text × Text)
outcomes_in kept [] = []
outcomes_in kept ((ref, code) ∷ outcomes) =
    let rest = outcomes_in kept outcomes in if mem ref kept then (ref, code) ∷ rest else rest

-- The snapshot that `record` builds from the distinct references.
unfoldable pub recorded :
    ℕ → List Text → OrderContextOperation → Option Text → List (Text × Text) → RecentOrderSnapshot
unfolding last_refs keep_focus outcomes_in
recorded max_refs refs operation focused outcomes =
    let kept = keep_focus focused (last_refs max_refs refs) in
    record {
      focused_order_ref = focused;
      order_refs = kept;
      operation = some operation;
      outcomes = outcomes_in kept outcomes;
      complete = leb (length refs) max_refs;
    }

-- The guards of `record` once there are references, and its write.
unfoldable pub record_distinct :
    (max_refs : ℕ)
    → List Text
    → OrderContextOperation
    → Option Text
    → List (Text × Text)
    → Action RecentOrderContext (Unit {0})
unfolding last_refs focus_of recorded valid_snapshot
record_distinct max_refs refs operation focused_order_ref outcomes = do
  let focused = focus_of focused_order_ref (last_refs max_refs refs)
  raise_if (elim focused [ none ↦ false | some ref ↦ not (mem ref refs) ]) value_error
  let normalized : List (Text × Text) = map (λ (o : Text × Text). (normalize o.0, o.1)) outcomes
  raise_if (not (all (λ (o : Text × Text). mem o.0 refs) normalized)) value_error
  let snapshot = recorded max_refs refs operation focused normalized
  raise_if (not (valid_snapshot snapshot)) validation
  modify (λ c. record c { snapshot = snapshot })

-- `RecentOrderContext.record`
unfoldable pub record_orders :
    List Text
    → OrderContextOperation
    → Option Text
    → List (Text × Text)
    → Action RecentOrderContext (Unit {0})
unfolding dedupe named_refs record_distinct
record_orders order_refs operation focused_order_ref outcomes = do
  let refs = dedupe [] (named_refs order_refs)
  raise_if (null refs) value_error
  max_refs ← gets (λ c. c.max_refs)
  record_distinct max_refs refs operation focused_order_ref outcomes

-- `restore_snapshot`
unfoldable pub restore_snapshot : RecentOrderSnapshot → Action RecentOrderContext (Unit {0})
restore_snapshot snapshot = do
  max_refs ← gets (λ c. c.max_refs)
  raise_if (not (leb (length snapshot.order_refs) max_refs)) value_error
  modify (λ c. record c { snapshot = snapshot })

-- `from_snapshot`
unfoldable pub from_snapshot : RecentOrderSnapshot → ℕ → Result RecentOrderContext
unfolding new_context
from_snapshot snapshot max_refs =
    if leb (length snapshot.order_refs) max_refs
    then (elim (new_context max_refs) [
      | ok context ↦ ok (record context { snapshot = snapshot })
      | err e ↦ err e
    ])
    else err value_error

unfoldable pub clear_orders : RecentOrderContext → RecentOrderContext
clear_orders context = record context { snapshot = empty_snapshot }
