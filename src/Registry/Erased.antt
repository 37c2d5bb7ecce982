-- ===== src/Registry/Erased.antt =====
-- What the statements that erase a session leave, and what the inventory before them answers.
use agnostic_market.Base.{
  ℕ, ◌≡◌, refl, sym, ap, subst, ◌∙◌, inl, inr, true, false, Option, none, some, List, [], ◌∷◌, any,
  all, map, null, not, arith, Bool-cases, ◌||◌,
}
use agnostic_market.Text.{Text}
use agnostic_market.Registry.Types.{SessionRegistryRecord, SessionCloseReason}
use agnostic_market.Registry.Database.{
  Key, key_eq, session_key, select, replace, Database, GenerationRow, OperationRow, deleted,
  state_eq, Outcome, ok, Transaction, ◌>>=◌, gets, raise_if, ◌>>◌,
}
use agnostic_market.Registry.Generations.{CheckpointGeneration, Fingerprint, rows_of, generation_of}
use agnostic_market.Registry.Admission.{Registry, Reply, written, close_admitted}
use agnostic_market.Registry.Publication.{find_operation}
use agnostic_market.Registry.Rotation.{load_generations}
use agnostic_market.Registry.Closing.{every_row}
use agnostic_market.Registry.Finalizing.{
  without_generations, without_operations, tombstone, delete_rows, erase_session,
}
use agnostic_market.Registry.Rows.{select-replace_self}
use agnostic_market.Registry.Statements.{update_session-result}
use agnostic_market.Registry.Inversion.{>>=-ok, or_raise-ok}

module _ (k : Key) where
  pub rows_of-erased : (rows : List GenerationRow) → rows_of k (without_generations k rows) ≡ []
  unfolding rows_of without_generations
  rows_of-erased [] = refl
  rows_of-erased (g ∷ rows) = elim (Bool-cases (key_eq g.key k)) [
    | inl hit ↦ ground (arith, hit, rows_of-erased rows)
    | inr miss ↦ ground (arith, miss, rows_of-erased rows)
  ]

  pub find_operation-erased :
      (operation : Text) (rows : List OperationRow)
      → find_operation k operation (without_operations k rows) ≡ none
  unfolding find_operation without_operations
  find_operation-erased operation [] = refl
  find_operation-erased operation (o ∷ rows) = elim (Bool-cases (key_eq o.key k)) [
    | inl hit ↦ ground (arith, hit, find_operation-erased operation rows)
    | inr miss ↦ ground (arith, miss, find_operation-erased operation rows)
  ]

pub load_generations-result :
    (registry : Registry) (r : SessionRegistryRecord) (db db' : Database)
    (generations : List CheckpointGeneration)
    → load_generations registry false r db ≡ ok (generations, db')
    → (generations ≡ map (generation_of registry.digest r) (rows_of (session_key r) db.generations))
      × (db' ≡ db)
unfolding load_generations ◌>>=◌ gets raise_if
load_generations-result registry r db db' generations answer =
    (ground (arith, answer), ground (arith, answer))

pub close_admitted-ok :
    {B : Type 0} (b : B) (db db' : Database) (reason : Option SessionCloseReason)
    (f : Transaction B)
    → (close_admitted reason >> f) db ≡ ok (b, db')
    → (reason ≡ none) × (f db ≡ ok (b, db'))
unfolding ◌>>=◌
close_admitted-ok b db db' none f answer = (refl, answer)
close_admitted-ok b db db' (some reason) f answer = cc

deleted_rows :
    (digest : Fingerprint) (r : SessionRegistryRecord) (rows : List GenerationRow)
    → any (λ g. not (state_eq g.row.state deleted)) (map (generation_of digest r) rows) ≡ false
    → all (λ g. state_eq g.state deleted) rows ≡ true
unfolding generation_of
deleted_rows digest r [] h = refl
deleted_rows digest r (g ∷ rows) h = elim (Bool-cases (state_eq g.state deleted)) [
  | inl gone ↦ ground (arith, gone, h, deleted_rows digest r rows (ground (arith, gone, h)))
  | inr there ↦ ground (arith, there, h)
]

module _ (digest : Fingerprint) (r : SessionRegistryRecord) (rows : List GenerationRow)
    (generations : List CheckpointGeneration) (e : generations ≡ map (generation_of digest r) rows)
    (over : (null generations || any (λ g. not (state_eq g.row.state deleted)) generations)
      ≡ false) where
  over-mapped :
      (null (map (generation_of digest r) rows)
        || any (λ g. not (state_eq g.row.state deleted)) (map (generation_of digest r) rows))
      ≡ false
  over-mapped =
      subst (λ gs. (null gs || any (λ g. not (state_eq g.row.state deleted)) gs) ≡ false) e over

  pub complete : all (λ g. state_eq g.state deleted) rows ≡ true
  complete = deleted_rows digest r rows (ground (arith, over-mapped))

  pub inhabited : null rows ≡ false
  inhabited = unmapped rows over-mapped
    where
      unmapped :
          (rows : List GenerationRow)
          → (null (map (generation_of digest r) rows)
              || any (λ g. not (state_eq g.row.state deleted)) (map (generation_of digest r) rows))
            ≡ false
          → null rows ≡ false
      unmapped [] h = h
      unmapped (g ∷ rows) h = refl

delete_rows-result :
    (k : Key) (db db' : Database) (u : Unit {0})
    → delete_rows k db ≡ ok (u, db')
    → (db'.sessions ≡ db.sessions)
      × (db'.generations ≡ without_generations k db.generations)
      × (db'.operations ≡ without_operations k db.operations)
unfolding delete_rows
delete_rows-result k db db' u answer =
    (ground (arith, answer), ground (arith, answer), ground (arith, answer))

tombstone-key :
    (now kept : ℕ) (q : SessionRegistryRecord) → session_key (tombstone now kept q) ≡ session_key q
unfolding tombstone
tombstone-key now kept q = refl

module _ (now kept : ℕ) (q : SessionRegistryRecord) (db : Database) where
  stone-stored :
      (d d' : Database) (changed : Option SessionRegistryRecord) (row p : SessionRegistryRecord)
      → select (session_key q) db.sessions ≡ some q
      → d.sessions ≡ db.sessions
      → select (session_key q) d.sessions ≡ some p
      → changed ≡ some (tombstone now kept p)
      → d' ≡ record d { sessions = replace (session_key q) (tombstone now kept p) d.sessions }
      → changed ≡ some row
      → (row ≡ tombstone now kept q)
        × (select (session_key q) d'.sessions ≡ some (tombstone now kept q))
        × (d'.generations ≡ d.generations)
        × (d'.operations ≡ d.operations)
  stone-stored d d' changed row p found same there answered wrote row_there =
      let e : p ≡ q = ground (arith, found, same, there) in
      (
        ground (arith, answered, row_there, ap (tombstone now kept) e),
        ap (λ (x : Database). select (session_key q) x.sessions) wrote
            ∙ select-replace_self (session_key q) (tombstone now kept p) p d.sessions
                (ap (λ x. session_key (tombstone now kept x)) e ∙ tombstone-key now kept q) there
            ∙ ap some (ap (tombstone now kept) e),
        ap (λ (x : Database). x.generations) wrote,
        ap (λ (x : Database). x.operations) wrote,
      )

  pub erase_session-result :
      (db' : Database) (reply : Reply)
      → select (session_key q) db.sessions ≡ some q
      → erase_session now kept q db ≡ ok (reply, db')
      → (reply ≡ written (tombstone now kept q))
        × (select (session_key q) db'.sessions ≡ some (tombstone now kept q))
        × (db'.generations ≡ without_generations (session_key q) db.generations)
        × (db'.operations ≡ without_operations (session_key q) db.operations)
  unfolding erase_session
  erase_session-result db' reply found answer =
      let (u, d, erased, a₁) = >>=-ok reply db db' _ _ answer in
      let (changed, d', wrote, a₂) = >>=-ok reply d db' _ _ a₁ in
      let (row, there, a₃) = or_raise-ok reply d' db' _ _ _ a₂ in
      let (same, generations, operations) = delete_rows-result (session_key q) db d u erased in
      elim (update_session-result (session_key q) every_row (tombstone now kept) d d' changed
        wrote) [
          | inl (nothing, _) ↦ ground (arith, there, nothing)
          | inr (p, held, _, answered, _, written') ↦
              let (is, stored, g, o) =
                stone-stored d d' changed row p found same held answered written' there in
              replied row d' is stored (g ∙ generations) (o ∙ operations) reply db' a₃
        ]
    where
      replied :
          (row : SessionRegistryRecord) (d' : Database)
          → row ≡ tombstone now kept q
          → select (session_key q) d'.sessions ≡ some (tombstone now kept q)
          → d'.generations ≡ without_generations (session_key q) db.generations
          → d'.operations ≡ without_operations (session_key q) db.operations
          → (reply : Reply) (db' : Database)
          → ◌≡◌ {A = Outcome (Reply × Database)} (ok (written row, d')) (ok (reply, db'))
          → (reply ≡ written (tombstone now kept q))
            × (select (session_key q) db'.sessions ≡ some (tombstone now kept q))
            × (db'.generations ≡ without_generations (session_key q) db.generations)
            × (db'.operations ≡ without_operations (session_key q) db.operations)
      replied row d' is stored g o reply db' answer =
          let f : d' ≡ db' = ground (arith, answer) in
          (
            ground (arith, answer, is),
            subst
                (λ (x : Database). select (session_key q) x.sessions ≡ some (tombstone now kept q))
                f stored,
            ap (λ (x : Database). x.generations) (sym f) ∙ g,
            ap (λ (x : Database). x.operations) (sym f) ∙ o,
          )
