-- ===== src/Registry/Taking.antt =====
-- What taking the lease of a close leaves, and what a claim answers of the record.
use agnostic_market.Base.{
  ℕ, ◌≡◌, sym, ap, subst, ◌∙◌, inl, inr, false, ◌&&◌, some, List, is_some, Option-cases, arith, not,
}
use agnostic_market.Registry.Generations.{CheckpointGeneration}
use agnostic_market.Registry.Types.{
  SessionCloseAuthority, is_owner, SessionCloseRequest, SessionRegistryRecord,
}
use agnostic_market.Registry.Database.{Key, session_key, select, replace, Database, Outcome, ok}
use agnostic_market.Registry.Admission.{Registry, lease_duration, record_from_row}
use agnostic_market.Registry.Closing.{
  SessionCloseClaim, every_row, taken, take_close_lease, close_claim, close_authority,
}
use agnostic_market.Registry.Rows.{select-key, select-replace_self}
use agnostic_market.Registry.Statements.{load_generations-IsRead, update_session-result}
use agnostic_market.Registry.Inversion.{
  >>=-ok, raise_if-ok, from_outcome-ok, or_raise-ok, outcome-ok,
}

pub row_of_ok :
    (row claimed : SessionRegistryRecord) → record_from_row row ≡ ok claimed → claimed ≡ row
unfolding record_from_row
row_of_ok row claimed read = ground (arith, read)

-- What taking the lease of a close leaves.
pub take_close_lease-result :
    (now : ℕ) (request : SessionCloseRequest) (k : Key) (r claimed : SessionRegistryRecord)
    (db db' : Database)
    → select k db.sessions ≡ some r
    → take_close_lease now request r db ≡ ok (claimed, db')
    → (lasts : ℕ) × (lease_duration request.duration_seconds ≡ ok lasts)
      × ((is_some r.close_operation_id && not (is_owner r.close_operation_id request.operation_id))
          ≡ false)
      × (claimed ≡ taken now lasts request r r)
      × (select k db'.sessions ≡ some claimed)
unfolding take_close_lease
take_close_lease-result now request k r claimed db db' found answer =
    let (ours, leased) = raise_if-ok claimed db db' _ _ _ answer in
    let (lasts, lasting, updated) = from_outcome-ok claimed db db' _ _ leased in
    let (changed, db₁, wrote, finished) = >>=-ok claimed db db' _ _ updated in
    let (row, there, last) = or_raise-ok claimed db₁ db' _ _ _ finished in
    let (read, same) = outcome-ok (record_from_row row) claimed db₁ db' last in
    elim (update_session-result (session_key r) every_row (taken now lasts request r) db db₁ changed
      wrote) [
        | inl (nothing, _) ↦ ground (arith, there, nothing)
        | inr (q, held, _, answered, _, written) ↦
            let own : session_key r ≡ k = select-key k db.sessions r found in
            let e : q ≡ r =
              ground (arith, found, subst (λ j. select j db.sessions ≡ some q) own held) in
            let here : row ≡ taken now lasts request r r =
              ground (arith, there, answered, ap (taken now lasts request r) e) in
            let f : claimed ≡ row = row_of_ok row claimed read in
            (
              lasts,
              lasting,
              ours,
              f ∙ here,
              rw (same, written)
                  (subst
                    (λ j.
                      select k (replace j (taken now lasts request r q) db.sessions) ≡ some claimed)
                    (sym own)
                    (select-replace_self k (taken now lasts request r q) r db.sessions
                        (ap session_key e ∙ own) found
                      ∙ ap some (ap (taken now lasts request r) e ∙ sym (f ∙ here)))),
            )
      ]

pub close_authority-ok :
    (r : SessionRegistryRecord) (a : SessionCloseAuthority)
    → close_authority r ≡ ok a
    → (a.fencing_generation ≡ r.fencing_generation)
      × (r.lease_owner_id ≡ some a.lease_owner_id)
      × (r.close_operation_id ≡ some a.operation_id)
unfolding close_authority
close_authority-ok r a made = elim (Option-cases r.close_operation_id) [
  | inl none_there ↦ ground (arith, made, none_there)
  | inr (operation, by) ↦ (elim (Option-cases r.lease_owner_id) [
    | inl unowned ↦ ground (arith, made, by, unowned)
    | inr (owner, held) ↦ (
      ground (arith, made, by, held),
      ground (arith, made, by, held),
      ground (arith, made, by, held),
    )
  ])
]

-- What a claim answers of the record, which it only reads.
pub close_claim-result :
    (registry : Registry) (r : SessionRegistryRecord) (db db' : Database)
    (claim : SessionCloseClaim)
    → close_claim registry r db ≡ ok (claim, db')
    → (db' ≡ db) × (claim.session ≡ r) × (close_authority r ≡ ok claim.authority)
unfolding close_claim
close_claim-result registry r db db' claim answer =
    let (authority, authorized, a₁) = from_outcome-ok claim db db' _ _ answer in
    let (generations, d, loaded, a₂) = >>=-ok claim db db' _ _ a₁ in
    let (_, a₃) = raise_if-ok claim d db' _ _ _ a₂ in
    claimed_of authority authorized generations d
      (load_generations-IsRead registry false r db generations d loaded) a₃
  where
    claimed_of :
        (authority : SessionCloseAuthority)
        → close_authority r ≡ ok authority
        → (generations : List CheckpointGeneration) (d : Database) → d ≡ db
        → ◌≡◌ {A = Outcome (SessionCloseClaim × Database)}
            (ok (record { authority = authority; session = r; generations = generations }, d))
            (ok (claim, db'))
        → (db' ≡ db) × (claim.session ≡ r) × (close_authority r ≡ ok claim.authority)
    claimed_of authority authorized generations d same last =
        (ground (arith, same, last), ground (arith, last), ground (arith, authorized, last))
