-- ===== src/Session/Tests.antt =====
-- The recent orders of a session with room for two.
use agnostic_market.Base.{◌≡◌, refl, none, [], ◌∷◌, List}
use agnostic_market.Text.{codes}
use agnostic_market.Effect.{ok}
use agnostic_market.Session.Recent.{
  list_orders, RecentOrderContext, empty_snapshot, new_context, from_snapshot,
}
use agnostic_market.Session.Bounded.{
  ContextCall, records, clears, IsBounded, context_run, from_snapshot-context_run,
}

abbrev two_refs : RecentOrderContext
two_refs = record { max_refs = 2; snapshot = empty_snapshot }

abbrev calls : List ContextCall
calls =
    records (codes " ord-1" ∷ codes "ord-2" ∷ codes "ord-3" ∷ []) list_orders none []
    ∷ clears
    ∷ records (codes "ord-1" ∷ codes "ord-2" ∷ codes "ord-3" ∷ []) list_orders none []
    ∷ []

from_snapshot-context_run_example :
    IsBounded (context_run calls two_refs)
    × (from_snapshot (context_run calls two_refs).snapshot (context_run calls two_refs).max_refs
        ≡ ok (context_run calls two_refs))
unfolding new_context
from_snapshot-context_run_example = from_snapshot-context_run 2 calls two_refs refl
