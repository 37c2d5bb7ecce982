-- ===== src/Registry/Takeover.antt =====
-- When an expired session may be taken over for its close, what the claimant gets, and that the former
-- holder is fenced out.
use agnostic_market.Base.{ℕ, ◌+◌, ◌≤◌, ◌<◌, ◌≡◌, ap, ◌⊎◌, inl, inr, false, some, List, arith}
use agnostic_market.Registry.Types.{
  Fault, SessionLeaseAuthority, SessionCloseRequest, SessionRegistryRecord,
}
use agnostic_market.Registry.Database.{Key, select, Database, ok, err, Transaction}
use agnostic_market.Registry.Admission.{Registry, database_fault, in_transaction, lease_key}
use agnostic_market.Registry.Closing.{SessionCloseClaim, claim_expired}
use agnostic_market.Registry.Rows.{Outcome-cases}
use agnostic_market.Registry.Calls.{HolderCall, Timing, hold, Call, perform_all}
use agnostic_market.Registry.Fenced.{continues_close, fenced_out}
use agnostic_market.Registry.Claims.{Claims, claim_expired-ok}

claimed_past :
    (a : SessionLeaseAuthority) (r q s : SessionRegistryRecord)
    → r ≡ q
    → s.fencing_generation ≡ q.fencing_generation + 1
    → a.fencing_generation ≤ r.fencing_generation
    → a.fencing_generation < s.fencing_generation
claimed_past a r q s e next older =
    omega (arith, older, next, ap (λ (x : SessionRegistryRecord). x.fencing_generation) e)

in_transaction-outcome :
    {A : Type 0} (fault : Fault → Fault) (t : Transaction A) (db : Database)
    → ((e : Fault) × (in_transaction fault t db ≡ (err e, db)))
      ⊎ ((a : A) × (db' : Database) × (in_transaction fault t db ≡ (ok a, db')))
unfolding in_transaction
in_transaction-outcome fault t db = elim (Outcome-cases (t db)) [
  | inl (e, failed) ↦ inl (fault e, ground (arith, failed))
  | inr ((a, db'), passed) ↦ inr (a, db', ground (arith, passed))
]

claim_expired-outcome :
    (registry : Registry) (now : ℕ) (k : Key) (request : SessionCloseRequest) (db : Database)
    → ((e : Fault) × (claim_expired registry now k request db ≡ (err e, db)))
      ⊎ ((claim : SessionCloseClaim) × (db' : Database) × (claim_expired registry now k request db
            ≡ (ok claim, db')))
unfolding claim_expired
claim_expired-outcome registry now k request db = in_transaction-outcome database_fault _ db

-- A claim of an expired session is refused and changes nothing, or it returned: then the session was
-- not closed, and its lease had run out or its own time was over while it was not closing; the
-- claimant's lease on it, of the requested duration and under the next fencing generation, is stored
-- and answered, and the session closes under the requested operation with its content as it was.
pub claim_expired-Claims :
    (registry : Registry) (now : ℕ) (k : Key) (request : SessionCloseRequest) (db : Database)
    → ((e : Fault) × (claim_expired registry now k request db ≡ (err e, db)))
      ⊎ ((claim : SessionCloseClaim) × (db' : Database) × (claim_expired registry now k request db
            ≡ (ok claim, db'))
          × (r : SessionRegistryRecord) × (s : SessionRegistryRecord) × Claims k now request db db'
              claim r s)
claim_expired-Claims registry now k request db =
    elim (claim_expired-outcome registry now k request db) [
      | inl refused ↦ inl refused
      | inr (claim, db', answer) ↦
          let (r, s, claimed) = claim_expired-ok registry now k request db db' claim answer in
          inr (claim, db', answer, r, s, claimed)
    ]

-- Whoever claimed an expired session for its close has fenced out its former holder: under the
-- authority of the lease that the session had, or of an older one, no renewal, activation,
-- publication or step of a rotation changes anything any more, nor does a `begin_close` under another
-- operation than the claim's, whatever calls have happened since the claim, purges aside.
pub claim_expired-fences_out :
    (registry : Registry) (now : ℕ) (request : SessionCloseRequest) (db db' : Database)
    (claim : SessionCloseClaim) (a : SessionLeaseAuthority) (r : SessionRegistryRecord)
    (calls : List Call) (t : Timing) (call : HolderCall)
    → claim_expired registry now (lease_key a) request db ≡ (ok claim, db')
    → select (lease_key a) db.sessions ≡ some r
    → a.fencing_generation ≤ r.fencing_generation
    → continues_close request.operation_id call ≡ false
    → hold registry t a call (perform_all registry calls db') ≡ perform_all registry calls db'
claim_expired-fences_out registry now request db db' claim a r calls t call answer found older
      other =
    let (q, s, claimed) = claim_expired-ok registry now (lease_key a) request db db' claim answer in
    fenced_out registry calls db' a s request.operation_id t call claimed.stored claimed.closes
      claimed.operation
      (claimed_past a r q s (ground (arith, found, claimed.held)) claimed.next_fence older) other
