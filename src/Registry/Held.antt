-- ===== src/Registry/Held.antt =====
-- What the checks before a close is finalized make sure of.
use agnostic_market.Base.{
  ℕ, ◌<◌, ◌≡◌, refl, sym, ap, ◌∙◌, true, false, Option, none, some, List, [], ◌∷◌, any, map, arith,
  ◌||◌,
}
use agnostic_market.Text.{Text, text_eq}
use agnostic_market.Text.Laws.{eq_of_text_eq}
use agnostic_market.Registry.Types.{
  SessionCloseAuthority, SessionRegistryRecord, SessionLifecycle, closing, is_owner, lifecycle_eq,
  lease_live,
}
use agnostic_market.Registry.Database.{Key, key_eq, GenerationRow, Database}
use agnostic_market.Registry.Generations.{Fingerprint, generation_of}
use agnostic_market.Registry.Admission.{close_rejection}
use agnostic_market.Registry.Finalizing.{is_stored, has_leftovers}

-- The authority is that of the close that holds the session at the time.
pub record HoldsClose (q : SessionRegistryRecord) (a : SessionCloseAuthority) (now : ℕ)
    : Type 0 where
  pub closes : q.lifecycle ≡ closing
  pub tenant : q.tenant_id ≡ a.tenant_id
  pub fence : q.fencing_generation ≡ a.fencing_generation
  pub owner : q.lease_owner_id ≡ some a.lease_owner_id
  pub operation : q.close_operation_id ≡ some a.operation_id
  pub ends : ℕ
  pub leased : q.lease_expires_at ≡ some ends
  pub live : now < ends

owned : (held : Option Text) (owner : Text) → is_owner held owner ≡ true → held ≡ some owner
unfolding is_owner
owned none owner is = cc
owned (some o) owner is = ap some (eq_of_text_eq o owner is)

lives :
    (lease : Option ℕ) (now : ℕ)
    → lease_live lease now ≡ true
    → (ends : ℕ) × (lease ≡ some ends) × (now < ends)
unfolding lease_live
lives none now is = cc
lives (some ends) now is = (ends, refl, ground (arith, is))

closing_of : (l : SessionLifecycle) → lifecycle_eq l closing ≡ true → l ≡ closing
unfolding lifecycle_eq
closing_of l is = ground (arith, is)

pub close_rejection-HoldsClose :
    (q : SessionRegistryRecord) (a : SessionCloseAuthority) (now : ℕ)
    → close_rejection q a now ≡ none
    → HoldsClose q a now
unfolding close_rejection
close_rejection-HoldsClose q a now admits =
    let (ends, leased, live) = lives q.lease_expires_at now (ground (arith, admits)) in
    record {
      closes = closing_of q.lifecycle (ground (arith, admits));
      tenant = eq_of_text_eq q.tenant_id a.tenant_id (ground (arith, admits));
      fence = ground (arith, admits);
      owner = owned q.lease_owner_id a.lease_owner_id (ground (arith, admits));
      operation = owned q.close_operation_id a.operation_id (ground (arith, admits));
      ends = ends;
      leased = leased;
      live = live;
    }

is_stored-mapped :
    (digest : Fingerprint) (q : SessionRegistryRecord) (rows : List GenerationRow) (thread : Text)
    → is_stored (map (generation_of digest q) rows) thread
      ≡ any (λ g. text_eq g.storage_thread_id thread) rows
unfolding is_stored generation_of
is_stored-mapped digest q [] thread = refl
is_stored-mapped digest q (g ∷ rows) thread =
    ap (λ b. text_eq g.storage_thread_id thread || b) (is_stored-mapped digest q rows thread)

-- Nothing is left over of some generations: no checkpoint under one of their threads, and no
-- manifest of the session.
pub has_leftovers-none :
    (digest : Fingerprint) (q : SessionRegistryRecord) (k : Key) (rows : List GenerationRow)
    (db : Database)
    → has_leftovers k (map (generation_of digest q) rows) db ≡ false
    → (any (λ thread. any (λ g. text_eq g.storage_thread_id thread) rows) db.checkpoint_rows
        ≡ false)
      × (any (λ m. key_eq m k) db.write_manifests ≡ false)
unfolding has_leftovers
has_leftovers-none digest q k rows db clean = (
  sym (λ i. any (λ thread. is_stored-mapped digest q rows thread i) db.checkpoint_rows)
      ∙ ground (arith, clean),
  ground (arith, clean),
)
