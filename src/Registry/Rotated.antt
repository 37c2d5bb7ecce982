-- ===== src/Registry/Rotated.antt =====
-- What a switch of the checkpoint authorities leaves: in memory it is answered again, and under a lease
-- the registry is at the generation that the bound authority keeps.
use agnostic_market.Base.{
  ◌≡◌, sym, ap, subst, ◌∙◌, All, false, inl, inr, true, List, some, arith, Bool-cases, Option-cases,
}
use agnostic_market.Text.{Text}
use agnostic_market.Text.Laws.{text_eq_refl}
use agnostic_market.Dict.{lookup, insert, erase}
use agnostic_market.Dict.Laws.{lookup-insert}
use agnostic_market.Registry.Types.{is_identifier, SessionLeaseAuthority, SessionRegistryRecord}
use agnostic_market.Registry.Database.{
  key_eq, select, Database, current, state_eq, Outcome, ok, err,
}
use agnostic_market.Registry.Generations.{CheckpointGeneration, CheckpointRotation}
use agnostic_market.Registry.Admission.{Registry, lease_key}
use agnostic_market.Registry.Rows.{Outcome-cases}
use agnostic_market.Registry.InMemory.{
  InMemoryAuthority, retire_history, complete_rotation, switch_in_memory,
}
use agnostic_market.Registry.Bound.{
  BoundAuthority, in_scope, is_switch, follow_switch, bound_switch,
}
use agnostic_market.Registry.Calls.{Timing, Call, perform_all, target}
use agnostic_market.Registry.Fencing.{perform_all-IsUntouched}
use agnostic_market.Registry.Switches.{switch_checkpoint_generation-Follows}

lookup-insert_self :
    (t : Text) (rotation : CheckpointRotation) (s : InMemoryAuthority)
    → lookup t (insert t rotation s.completed) ≡ some rotation
lookup-insert_self t rotation s =
    ground (arith, lookup-insert t t rotation s.completed, text_eq_refl t)

complete_rotation-completed :
    (t : Text) (source destination : CheckpointGeneration) (s s' : InMemoryAuthority)
    (rotation : CheckpointRotation)
    → complete_rotation t source destination s ≡ (ok rotation, s')
    → lookup t s'.completed ≡ some rotation
unfolding complete_rotation
complete_rotation-completed t source destination s s' rotation answer =
    elim (Outcome-cases (retire_history source s)) [
      | inl (e, failed) ↦ ground (arith, answer, failed)
      | inr (kept, passed) ↦ ground (arith, answer, passed, lookup-insert_self t rotation kept)
    ]

-- A switch in memory that returned a rotation returns the same one again, and changes nothing then.
pub switch_in_memory-again :
    (t : Text) (s s' : InMemoryAuthority) (rotation : CheckpointRotation)
    → switch_in_memory t s ≡ (ok rotation, s')
    → switch_in_memory t s' ≡ (ok rotation, s')
unfolding switch_in_memory
switch_in_memory-again t s s' rotation answer = elim (Bool-cases (is_identifier t)) [
  | inr bad ↦ ground (arith, answer, bad)
  | inl good ↦ (elim (Option-cases (lookup t s.completed)) [
    | inr (r, there) ↦ ground (arith, answer, good, there)
    | inl new ↦ (elim (Option-cases (lookup t s.pending_rotations)) [
      | inl absent ↦ ground (arith, answer, good, new, absent)
      | inr ((source, destination), waiting) ↦
          let now_there : lookup t s'.completed ≡ some rotation =
            complete_rotation-completed t source destination
              (record s { pending_rotations = erase t s.pending_rotations }) s' rotation
              (ground (arith, answer, good, new, waiting)) in
          ground (arith, good, now_there)
    ])
  ])
]

-- The registry holds the session of a bound authority under its lease, and at the generation that it
-- keeps as the current one.
pub record IsAtCurrent (b : BoundAuthority) (db : Database) : Type 0 where
  pub row : SessionRegistryRecord
  pub stored : select (lease_key b.authority) db.sessions ≡ some row
  pub namespace : row.checkpoint_namespace ≡ b.current_generation.row.checkpoint_namespace
  pub principal : row.principal_generation ≡ b.current_generation.row.principal_generation
  pub fence : row.fencing_generation ≡ b.current_generation.row.fencing_generation
  pub leased :
      (row.fencing_generation ≡ b.authority.fencing_generation)
      × (row.lease_owner_id ≡ some b.authority.lease_owner_id)
  pub is_current : state_eq b.current_generation.row.state current ≡ true

follow_switch-ok :
    (b b' : BoundAuthority) (t : Text) (o : Outcome CheckpointRotation)
    (rotation : CheckpointRotation)
    → follow_switch b t o ≡ (ok rotation, b')
    → (o ≡ ok rotation)
      × (b' ≡ record b { current_generation = rotation.destination })
      × (in_scope b.authority rotation.destination ≡ true)
      × (state_eq rotation.destination.row.state current ≡ true)
unfolding follow_switch is_switch
follow_switch-ok b b' t (err e) rotation answer = ground (arith, answer)
follow_switch-ok b b' t (ok done) rotation answer =
    let e : done ≡ rotation = ground (arith, answer) in
    let f : b' ≡ record b { current_generation = done.destination } = ground (arith, answer) in
    let scoped : in_scope b.authority done.destination ≡ true = ground (arith, answer) in
    let is : state_eq done.destination.row.state current ≡ true = ground (arith, answer) in
    (
      ap ok e,
      f ∙ ap (λ (x : CheckpointRotation). record b { current_generation = x.destination }) e,
      subst (λ (x : CheckpointRotation). in_scope b.authority x.destination ≡ true) e scoped,
      subst (λ (x : CheckpointRotation). state_eq x.destination.row.state current ≡ true) e is,
    )

in_scope-fence :
    (a : SessionLeaseAuthority) (g : CheckpointGeneration)
    → in_scope a g ≡ true
    → g.row.fencing_generation ≡ a.fencing_generation
unfolding in_scope
in_scope-fence a g scoped = ground (arith, scoped)

-- Once a bound authority's switch returned, the registry holds the session under the authority's lease
-- and at the destination, which the authority keeps as its current generation, and so it stays while
-- calls name other sessions.
pub bound_switch-IsAtCurrent :
    (registry : Registry) (nonce : Text) (time : Timing) (t : Text) (b b' : BoundAuthority)
    (db db' : Database) (rotation : CheckpointRotation) (calls : List Call)
    → bound_switch registry nonce time t b db ≡ ((ok rotation, b'), db')
    → All (λ call. key_eq (target call) (lease_key b.authority) ≡ false) calls
    → (b' ≡ record b { current_generation = rotation.destination })
      × IsAtCurrent b' (perform_all registry calls db')
unfolding bound_switch
bound_switch-IsAtCurrent registry nonce time t b b' db db' rotation calls answer others =
    let (done, kept, scoped, is) = follow_switch-ok b b' t _ rotation (λ i. (answer i).0) in
    let (r, follows, fence, owner) =
      switch_checkpoint_generation-Follows registry nonce time.locked time.now time.later
        b.authority t rotation db db' is (λ i. (done i, (answer i).1)) in
    let still = perform_all-IsUntouched registry calls db' (lease_key b.authority) others in
    (
      kept,
      subst (λ c. IsAtCurrent c (perform_all registry calls db')) (sym kept)
          (record {
            row = follows.row;
            stored = still.session ∙ follows.stored;
            namespace = follows.named.namespace;
            principal = follows.named.principal;
            fence =
                follows.fence
                ∙ fence
                ∙ sym (in_scope-fence b.authority rotation.destination scoped);
            leased = (follows.fence ∙ fence, follows.owner ∙ owner);
            is_current = is;
          }),
    )
