-- ===== src/Session/Bounded.antt =====
-- The recent orders of a session: how many are kept, whatever calls happen to the context.
use agnostic_market.Base.{
  ℕ, zero, suc, ◌-◌, ◌≤◌, ◌≡◌, refl, sym, ap, subst, inl, inr, Bool, true, false, Option, none,
  some, List, [], ◌∷◌, ◌++◌, arith, not, null, all, map, length, leb, Bool-cases, if◌then◌else◌,
}
use agnostic_market.Text.{Text, normalize}
use agnostic_market.Dict.{mem}
use agnostic_market.Effect.{ok, value_error, validation, raise_if, modify, gets, ◌>>=◌, ◌>>◌}
use agnostic_market.Effect.Laws.{raise_if-keeps}
use agnostic_market.Session.Recent.{
  OrderContextOperation, RecentOrderSnapshot, valid_snapshot, RecentOrderContext, empty_snapshot,
  new_context, dedupe, named_refs, drop, last_refs, focus_of, keep_focus, recorded, record_distinct,
  record_orders, restore_snapshot, from_snapshot, clear_orders,
}

length-drop : (n : ℕ) (xs : List Text) → length (drop n xs) ≡ length xs - n
unfolding drop
length-drop zero xs = omega arith
length-drop (suc n) [] = omega arith
length-drop (suc n) (x ∷ xs) = omega (arith, length-drop n xs)

length-snoc : (xs : List Text) (x : Text) → length (xs ++ x ∷ []) ≡ suc (length xs)
length-snoc [] x = refl
length-snoc (y ∷ xs) x = ap suc (length-snoc xs x)

last_refs-bound : (n : ℕ) (refs : List Text) → length (last_refs n refs) ≤ n
unfolding last_refs
last_refs-bound n refs = omega (arith, length-drop (length refs - n) refs)

keep_focus-bound :
    (n : ℕ) (focus : Option Text) (kept : List Text)
    → 1 ≤ n
    → length kept ≤ n
    → length (keep_focus focus kept) ≤ n
unfolding keep_focus
keep_focus-bound n none kept some_room fits = fits
keep_focus-bound n (some ref) kept some_room fits = elim (Bool-cases (mem ref kept)) [
  | inl there ↦ rw there fits
  | inr lost ↦
      rw lost (omega (arith, some_room, fits, length-snoc (drop 1 kept) ref, length-drop 1 kept))
]

-- What is kept is valid, and no more than there is room for.
pub record IsBounded (c : RecentOrderContext) : Type 0 where
  pub room : 1 ≤ c.max_refs
  pub bound : length c.snapshot.order_refs ≤ c.max_refs
  pub valid : valid_snapshot c.snapshot ≡ true

-- A call on the context of a session. The snapshot that is restored is a model that was validated.
pub data ContextCall : Type 0 where
  records : List Text → OrderContextOperation → Option Text → List (Text × Text) → ContextCall
  restores : RecentOrderSnapshot → ContextCall
  clears : ContextCall

unfoldable pub context_step : ContextCall → RecentOrderContext → RecentOrderContext
context_step (records refs operation focus outcomes) c =
    (record_orders refs operation focus outcomes c).1
context_step (restores snapshot) c =
    if valid_snapshot snapshot then (restore_snapshot snapshot c).1 else c
context_step clears c = clear_orders c

unfoldable pub context_run : List ContextCall → RecentOrderContext → RecentOrderContext
context_run [] c = c
context_run (call ∷ calls) c = context_run calls (context_step call c)

-- Three guards before a write of the snapshot.
guarded :
    (astray unknown invalid : Bool) (s : RecentOrderSnapshot) (c : RecentOrderContext)
    → IsBounded c
    → (invalid ≡ false → IsBounded (record c { snapshot = s }))
    → IsBounded
        ((raise_if astray value_error
            >> (raise_if unknown value_error
                >> (raise_if invalid validation
                    >> modify (λ (d : RecentOrderContext). record d { snapshot = s }))))
          c).1
guarded true _ _ s c h write = h
guarded false true _ s c h write = h
guarded false false true s c h write = h
guarded false false false s c h write = write refl

unnegated : (b : Bool) → not b ≡ false → b ≡ true
unnegated true h = refl
unnegated false h = sym h

record_distinct-IsBounded :
    (refs : List Text) (operation : OrderContextOperation) (focus : Option Text)
    (outcomes : List (Text × Text)) (c : RecentOrderContext)
    → IsBounded c
    → IsBounded (record_distinct c.max_refs refs operation focus outcomes c).1
unfolding record_distinct recorded
record_distinct-IsBounded refs operation focus outcomes c h =
    let focused = focus_of focus (last_refs c.max_refs refs) in
    let normalized : List (Text × Text) =
      map (λ (o : Text × Text). (normalize o.0, o.1)) outcomes in
    let snapshot = recorded c.max_refs refs operation focused normalized in
    guarded (elim focused [ none ↦ false | some ref ↦ not (mem ref refs) ])
      (not (all (λ (o : Text × Text). mem o.0 refs) normalized)) (not (valid_snapshot snapshot))
      snapshot c h
      (λ good. record {
        room = h.room;
        bound = keep_focus-bound c.max_refs focused _ h.room (last_refs-bound c.max_refs refs);
        valid = unnegated (valid_snapshot snapshot) good;
      })

record_orders-IsBounded :
    (refs : List Text) (operation : OrderContextOperation) (focus : Option Text)
    (outcomes : List (Text × Text)) (c : RecentOrderContext)
    → IsBounded c
    → IsBounded (record_orders refs operation focus outcomes c).1
unfolding record_orders
record_orders-IsBounded refs operation focus outcomes c h =
    let named = dedupe [] (named_refs refs) in
    raise_if-keeps {B = Unit {0}} IsBounded (null named) value_error
      (λ _. gets (λ (d : RecentOrderContext). d.max_refs) >>= λ max_refs.
        record_distinct max_refs named operation focus outcomes)
      c h (λ _. record_distinct-IsBounded named operation focus outcomes c h)

within : (m n : ℕ) → leb m n ≡ true → m ≤ n
within m n h = ground (arith, h)

context_step-IsBounded :
    (call : ContextCall) (c : RecentOrderContext) → IsBounded c → IsBounded (context_step call c)
unfolding context_step restore_snapshot clear_orders valid_snapshot
context_step-IsBounded (records refs operation focus outcomes) c h =
    record_orders-IsBounded refs operation focus outcomes c h
context_step-IsBounded (restores snapshot) c h = elim (Bool-cases (valid_snapshot snapshot)) [
  | inr bad ↦ rw bad h
  | inl good ↦ (elim (Bool-cases (leb (length snapshot.order_refs) c.max_refs)) [
    | inr large ↦ rw (good, large) h
    | inl fits ↦ rw (good, fits) (record { room = h.room; bound = within _ _ fits; valid = good })
  ])
]
context_step-IsBounded clears c h = record { room = h.room; bound = omega arith; valid = refl }

context_run-IsBounded :
    (calls : List ContextCall) (c : RecentOrderContext)
    → IsBounded c
    → IsBounded (context_run calls c)
unfolding context_run
context_run-IsBounded [] c h = h
context_run-IsBounded (call ∷ calls) c h =
    context_run-IsBounded calls (context_step call c) (context_step-IsBounded call c h)

leb_of_le : (m n : ℕ) → m ≤ n → leb m n ≡ true
leb_of_le m n le = ground (arith, le)

bounded-from_snapshot :
    (c : RecentOrderContext) → IsBounded c → from_snapshot c.snapshot c.max_refs ≡ ok c
unfolding from_snapshot new_context
bounded-from_snapshot c h = ground (arith, leb_of_le _ _ h.bound, leb_of_le _ _ h.room)

new_context-IsBounded :
    (max_refs : ℕ) (c : RecentOrderContext) → new_context max_refs ≡ ok c → IsBounded c
unfolding new_context valid_snapshot
new_context-IsBounded max_refs c made = elim (Bool-cases (leb 1 max_refs)) [
  | inr none_fits ↦ ground (arith, made, none_fits)
  | inl fits ↦
      let e : record { max_refs = max_refs; snapshot = empty_snapshot } ≡ c =
        ground (arith, made, fits) in
      subst IsBounded e
        (record { room = within 1 max_refs fits; bound = omega arith; valid = refl })
]

-- Whatever calls happen to a new context, what it keeps is a valid snapshot with at most as many
-- references as there is room for, and `from_snapshot` makes the same context of that snapshot.
pub from_snapshot-context_run :
    (max_refs : ℕ) (calls : List ContextCall) (c : RecentOrderContext)
    → new_context max_refs ≡ ok c
    → IsBounded (context_run calls c)
      × (from_snapshot (context_run calls c).snapshot (context_run calls c).max_refs
          ≡ ok (context_run calls c))
from_snapshot-context_run max_refs calls c made =
    let kept = context_run-IsBounded calls c (new_context-IsBounded max_refs c made) in
    (kept, bounded-from_snapshot (context_run calls c) kept)
