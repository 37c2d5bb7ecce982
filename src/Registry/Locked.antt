-- ===== src/Registry/Locked.antt =====
-- The statements of a method that holds its session: it names the session by the key of the record
-- that it locked, or by that of the authority, which are the same.
use agnostic_market.Base.{
  ℕ, ◌≡◌, sym, ap, subst, ◌∙◌, inl, inr, Bool, true, Option, none, some, arith, Option-cases,
}
use agnostic_market.Text.{Text}
use agnostic_market.Registry.Types.{
  Fault, SessionLeaseAuthority, SessionCloseAuthority, SessionRegistryRecord, valid_record,
}
use agnostic_market.Registry.Database.{
  Key, session_key, select, Database, GenerationState, GenerationRow, ok, Transaction, ◌>>=◌,
  update_session,
}
use agnostic_market.Registry.Generations.{update_state}
use agnostic_market.Registry.Admission.{
  in_transaction, locked_session, locked_record, locked_close_record, lease_key, close_key,
  lease_rejection, close_rejection,
}
use agnostic_market.Registry.Rows.{Outcome-cases}
use agnostic_market.Registry.Progress.{Advances, Moves, Moves-refl, IsMove, >>=-IsMove}
use agnostic_market.Registry.Statements.{
  locked_session-found, read-IsMove, update_session-IsMove, update_state-IsMove,
}

-- A transaction that is rolled back changes nothing.
pub in_transaction-Moves :
    {A : Type 0} (k : Key) (fault : Fault → Fault) (t : Transaction A) (db : Database)
    → IsMove k t db
    → Moves k db (in_transaction fault t db).1
unfolding in_transaction
in_transaction-Moves k fault t db moves = elim (Outcome-cases (t db)) [
  | inl (e, failed) ↦ subst (Moves k db) (ground (arith, failed)) (Moves-refl k db)
  | inr ((a, db'), passed) ↦ subst (Moves k db) (ground (arith, passed)) (moves a db' passed)
]

pub update_state-sessions :
    (k : Key) (namespace : Text) (from : Option GenerationState) (state : GenerationState)
    (db db' : Database) (changed : Option GenerationRow)
    → update_state k namespace from state db ≡ ok (changed, db')
    → db'.sessions ≡ db.sessions
unfolding update_state
update_state-sessions k namespace from state db db' changed answer = ground (arith, answer)

module _ (k k' : Key) (same : k' ≡ k) (db : Database) where
  pub update-IsMove :
      (test : SessionRegistryRecord → Bool) (change : SessionRegistryRecord → SessionRegistryRecord)
      → ((r : SessionRegistryRecord)
          → select k db.sessions ≡ some r
          → test r ≡ true
          → (session_key (change r) ≡ session_key r) × Advances r (change r))
      → IsMove k (update_session k' test change) db
  update-IsMove test change keeps =
      subst (λ j. IsMove k (update_session j test change) db) (sym same)
        (update_session-IsMove k db test change keeps)

  pub state-IsMove :
      (namespace : Text) (from : Option GenerationState) (state : GenerationState)
      → IsMove k (update_state k' namespace from state) db
  state-IsMove namespace from state =
      subst (λ j. IsMove k (update_state j namespace from state) db) (sym same)
        (update_state-IsMove k db namespace from state)

pub locked_record-found :
    (a : SessionLeaseAuthority) (now : ℕ) (d d' : Database) (r : SessionRegistryRecord)
    → locked_record a now d ≡ ok (r, d')
    → (d' ≡ d)
      × (select (lease_key a) d.sessions ≡ some r)
      × (valid_record r ≡ true)
      × (lease_rejection r a now ≡ none)
unfolding locked_record ◌>>=◌
locked_record-found a now d d' r answer = elim (Outcome-cases (locked_session (lease_key a) d)) [
  | inl (e, failed) ↦ ground (arith, answer, failed)
  | inr ((q, d''), passed) ↦
      let (same, found, valid) = locked_session-found (lease_key a) d d'' q passed in
      elim (Option-cases (lease_rejection q a now)) [
        | inr (reason, refused) ↦ ground (arith, answer, passed, refused)
        | inl admits ↦
            let e : q ≡ r = ground (arith, answer, passed, admits) in
            (
              ground (arith, answer, passed, admits, same),
              found ∙ ap some e,
              subst (λ x. valid_record x ≡ true) e valid,
              subst (λ x. lease_rejection x a now ≡ none) e admits,
            )
      ]
]

pub locked_close_record-found :
    (a : SessionCloseAuthority) (now : ℕ) (d d' : Database) (r : SessionRegistryRecord)
    → locked_close_record a now d ≡ ok (r, d')
    → (d' ≡ d)
      × (select (close_key a) d.sessions ≡ some r)
      × (valid_record r ≡ true)
      × (close_rejection r a now ≡ none)
unfolding locked_close_record ◌>>=◌
locked_close_record-found a now d d' r answer =
    elim (Outcome-cases (locked_session (close_key a) d)) [
      | inl (e, failed) ↦ ground (arith, answer, failed)
      | inr ((q, d''), passed) ↦
          let (same, found, valid) = locked_session-found (close_key a) d d'' q passed in
          elim (Option-cases (close_rejection q a now)) [
            | inr (reason, refused) ↦ ground (arith, answer, passed, refused)
            | inl admits ↦
                let e : q ≡ r = ground (arith, answer, passed, admits) in
                (
                  ground (arith, answer, passed, admits, same),
                  found ∙ ap some e,
                  subst (λ x. valid_record x ≡ true) e valid,
                  subst (λ x. close_rejection x a now ≡ none) e admits,
                )
          ]
    ]

module _ {A : Type 0} (k k' : Key) (same : k' ≡ k) (db : Database) where
  pub update-then-IsMove :
      (test : SessionRegistryRecord → Bool) (change : SessionRegistryRecord → SessionRegistryRecord)
      (f : Option SessionRegistryRecord → Transaction A)
      → ((r : SessionRegistryRecord)
          → select k db.sessions ≡ some r
          → test r ≡ true
          → (session_key (change r) ≡ session_key r) × Advances r (change r))
      → ((changed : Option SessionRegistryRecord) (db' : Database) → IsMove k (f changed) db')
      → IsMove k (update_session k' test change >>= f) db
  update-then-IsMove test change f keeps rest =
      >>=-IsMove k (update_session k' test change) f db
        (update-IsMove k k' same db test change keeps) (λ changed db' _. rest changed db')

  pub state-then-IsMove :
      (namespace : Text) (from : Option GenerationState) (state : GenerationState)
      (f : Option GenerationRow → Transaction A)
      → ((changed : Option GenerationRow) (db' : Database)
          → db'.sessions ≡ db.sessions
          → IsMove k (f changed) db')
      → IsMove k (update_state k' namespace from state >>= f) db
  state-then-IsMove namespace from state f rest =
      >>=-IsMove k (update_state k' namespace from state) f db
        (state-IsMove k k' same db namespace from state)
        (λ changed db' answer.
          rest changed db' (update_state-sessions k' namespace from state db db' changed answer))

module _ {A : Type 0} (db : Database) where
  pub locked_session-IsMove :
      (k : Key) (f : SessionRegistryRecord → Transaction A)
      → ((r : SessionRegistryRecord)
          → select k db.sessions ≡ some r
          → valid_record r ≡ true
          → IsMove k (f r) db)
      → IsMove k (locked_session k >>= f) db
  locked_session-IsMove k f rest =
      read-IsMove k (locked_session k) f db
        (λ d r d' answer. (locked_session-found k d d' r answer).0)
        (λ r answer.
          let (_, found, valid) = locked_session-found k db db r answer in rest r found valid)

  pub locked_record-IsMove :
      (a : SessionLeaseAuthority) (now : ℕ) (f : SessionRegistryRecord → Transaction A)
      → ((r : SessionRegistryRecord)
          → select (lease_key a) db.sessions ≡ some r
          → lease_rejection r a now ≡ none
          → IsMove (lease_key a) (f r) db)
      → IsMove (lease_key a) (locked_record a now >>= f) db
  locked_record-IsMove a now f rest =
      read-IsMove (lease_key a) (locked_record a now) f db
        (λ d r d' answer. (locked_record-found a now d d' r answer).0)
        (λ r answer.
          let (_, found, _, admits) = locked_record-found a now db db r answer in
          rest r found admits)

  pub locked_close_record-IsMove :
      (a : SessionCloseAuthority) (now : ℕ) (f : SessionRegistryRecord → Transaction A)
      → ((r : SessionRegistryRecord)
          → select (close_key a) db.sessions ≡ some r
          → close_rejection r a now ≡ none
          → IsMove (close_key a) (f r) db)
      → IsMove (close_key a) (locked_close_record a now >>= f) db
  locked_close_record-IsMove a now f rest =
      read-IsMove (close_key a) (locked_close_record a now) f db
        (λ d r d' answer. (locked_close_record-found a now d d' r answer).0)
        (λ r answer.
          let (_, found, _, admits) = locked_close_record-found a now db db r answer in
          rest r found admits)
