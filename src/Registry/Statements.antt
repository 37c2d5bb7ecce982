-- ===== src/Registry/Statements.antt =====
-- Each statement of a session's transaction is a move, and the tests around it are none.
use agnostic_market.Base.{
  ◌≡◌, refl, sym, subst, ◌∙◌, ◌⊎◌, inl, inr, Bool, true, false, Option, none, some, List, [], ◌∷◌,
  ◌++◌, arith, Bool-cases, Option-cases,
}
use agnostic_market.Text.{Text}
use agnostic_market.Registry.Types.{Fault, SessionRegistryRecord, valid_record}
use agnostic_market.Registry.Database.{
  Key, key_eq, session_key, select, replace, Database, GenerationRow, GenerationState, OperationRow,
  Outcome, ok, err, Transaction, ◌>>=◌, ◌>>◌, gets, raise_if, from_outcome, or_raise, write_row,
  update_session, row_allowed, namespace_taken,
}
use agnostic_market.Registry.Generations.{
  rows_of, names, set_states, find_generation, update_state, insert_generation,
}
use agnostic_market.Registry.Admission.{Registry, record_from_row, locked_session}
use agnostic_market.Registry.Publication.{insert_operation}
use agnostic_market.Registry.Rotation.{load_generations}
use agnostic_market.Registry.Rows.{
  Outcome-cases, select-key, select-replace_self, select-replace_ne,
}
use agnostic_market.Registry.Scopes.{
  rows_of-set_states, rows_of-append, rows_of-without, find_operation-append,
  find_operation-without,
}
use agnostic_market.Registry.Finalizing.{without_operations, without_generations}
use agnostic_market.Registry.Progress.{Advances, IsSound, Advances-refl, Moves, Moves-refl, IsMove}

-- A transaction that only reads.
abbrev pub IsRead : {A : Type 0} → Transaction A → Type 0
IsRead {A} m = (db : Database) (a : A) (db' : Database) → m db ≡ ok (a, db') → db' ≡ db

pub load_generations-IsRead :
    (registry : Registry) (required : Bool) (r : SessionRegistryRecord)
    → IsRead (load_generations registry required r)
unfolding load_generations ◌>>=◌ gets raise_if
load_generations-IsRead registry required r db a db' answer = ground (arith, answer)

-- What a lock finds.
pub locked_session-found :
    (k : Key) (db db' : Database) (r : SessionRegistryRecord)
    → locked_session k db ≡ ok (r, db')
    → (db' ≡ db) × (select k db.sessions ≡ some r) × (valid_record r ≡ true)
unfolding locked_session record_from_row ◌>>=◌ gets or_raise from_outcome
locked_session-found k db db' r answer = elim (Option-cases (select k db.sessions)) [
  | inl missing ↦ ground (arith, answer, missing)
  | inr (q, found) ↦ ground (arith, answer, found)
]

module _ (k : Key) {A : Type 0} where
  pub raise_if-IsMove :
      (bad : Bool) (e : Fault) (f : Transaction A) (db : Database)
      → (bad ≡ false → IsMove k f db)
      → IsMove k (raise_if bad e >> f) db
  unfolding raise_if ◌>>=◌
  raise_if-IsMove true e f db rest b db' answer = cc
  raise_if-IsMove false e f db rest b db' answer = rest refl b db' answer

  pub from_outcome-IsMove :
      {B : Type 0} (o : Outcome B) (f : B → Transaction A) (db : Database)
      → ((b : B) → o ≡ ok b → IsMove k (f b) db)
      → IsMove k (from_outcome o >>= f) db
  unfolding from_outcome ◌>>=◌
  from_outcome-IsMove (ok b) f db rest a db' answer = rest b refl a db' answer
  from_outcome-IsMove (err e) f db rest a db' answer = cc

  pub or_raise-IsMove :
      {B : Type 0} (o : Option B) (e : Fault) (f : B → Transaction A) (db : Database)
      → ((b : B) → o ≡ some b → IsMove k (f b) db)
      → IsMove k (or_raise o e >>= f) db
  unfolding or_raise ◌>>=◌
  or_raise-IsMove (some b) e f db rest a db' answer = rest b refl a db' answer
  or_raise-IsMove none e f db rest a db' answer = cc

  pub read-IsMove :
      {B : Type 0} (m : Transaction B) (f : B → Transaction A) (db : Database)
      → IsRead m
      → ((b : B) → m db ≡ ok (b, db) → IsMove k (f b) db)
      → IsMove k (m >>= f) db
  unfolding ◌>>=◌
  read-IsMove m f db reads rest a db'' answer = elim (Outcome-cases (m db)) [
    | inl (e, failed) ↦ ground (arith, answer, failed)
    | inr ((b, db'), passed) ↦
        let same : db' ≡ db = reads db b db' passed in
        let there : m db ≡ ok (b, db) = subst (λ d. m db ≡ ok (b, d)) same passed in
        rest b there a db'' (ground (arith, answer, there))
  ]

  pub gets-IsMove :
      {B : Type 0} (g : Database → B) (f : B → Transaction A) (db : Database)
      → IsMove k (f (g db)) db
      → IsMove k (gets g >>= f) db
  unfolding gets ◌>>=◌
  gets-IsMove g f db rest = rest

  pub outcome-IsMove : (o : Outcome A) (db : Database) → IsMove k (from_outcome o) db
  unfolding from_outcome
  outcome-IsMove (ok a) db b db' answer =
      subst (Moves k db) (ground (arith, answer)) (Moves-refl k db)
  outcome-IsMove (err e) db b db' answer = cc

  pub pure-IsMove : (a : A) (db : Database) → IsMove k (λ d. ok (a, d)) db
  pure-IsMove a db b db' answer = subst (Moves k db) (ground (arith, answer)) (Moves-refl k db)

write_row-result :
    (k : Key) (new : SessionRegistryRecord) (db db' : Database) (u : Unit {0})
    → write_row k new db ≡ ok (u, db')
    → (row_allowed new ≡ true) × (db' ≡ record db { sessions = replace k new db.sessions })
unfolding write_row
write_row-result k new db db' u answer = elim (Bool-cases (row_allowed new)) [
  | inr refused ↦ ground (arith, answer, refused)
  | inl allowed ↦ elim (Bool-cases (namespace_taken new db.sessions)) [
    | inl taken ↦ ground (arith, answer, allowed, taken)
    | inr free ↦ (allowed, ground (arith, answer, allowed, free))
  ]
]

-- What an update writes, and what it answers.
pub update_session-result :
    (k : Key) (test : SessionRegistryRecord → Bool)
    (change : SessionRegistryRecord → SessionRegistryRecord) (db db' : Database)
    (a : Option SessionRegistryRecord)
    → update_session k test change db ≡ ok (a, db')
    → ((a ≡ none) × (db' ≡ db))
      ⊎ ((r : SessionRegistryRecord) × (select k db.sessions ≡ some r)
          × (test r ≡ true)
          × (a ≡ some (change r))
          × (row_allowed (change r) ≡ true)
          × (db' ≡ record db { sessions = replace k (change r) db.sessions }))
unfolding update_session ◌>>=◌
update_session-result k test change db db' a answer = elim (Option-cases (select k db.sessions)) [
  | inl missing ↦ inl (ground (arith, answer, missing), ground (arith, answer, missing))
  | inr (r, found) ↦ elim (Bool-cases (test r)) [
    | inr failed ↦
        inl (ground (arith, answer, found, failed), ground (arith, answer, found, failed))
    | inl passed ↦ elim (Outcome-cases (write_row k (change r) db)) [
      | inl (e, refused) ↦ ground (arith, answer, found, passed, refused)
      | inr ((u, d), done) ↦
          let (allowed, written) = write_row-result k (change r) db d u done in
          inr (
            r,
            found,
            passed,
            ground (arith, answer, found, passed, done),
            allowed,
            ground (arith, answer, found, passed, done, written),
          )
    ]
  ]
]

replace-Moves :
    (k : Key) (r new : SessionRegistryRecord) (db : Database)
    → select k db.sessions ≡ some r
    → session_key new ≡ k
    → Advances r new
    → row_allowed new ≡ true
    → Moves k db (record db { sessions = replace k new db.sessions })
replace-Moves k r new db found keyed step allowed = record {
  own = λ q here.
      let e : q ≡ r = ground (arith, here, found) in
      (
        new,
        select-replace_self k new r db.sessions keyed found,
        subst (λ x. Advances x new) (sym e) step,
      );
  sound = λ stored s here.
      let e : new ≡ s = ground (arith, here, select-replace_self k new r db.sessions keyed found) in
      subst IsSound e (allowed, step.coherence (stored r found).1);
  others = λ j other. (select-replace_ne k j new db.sessions keyed other, refl, λ operation. refl);
  storage = (refl, refl);
}

generations-Moves :
    (k : Key) (db : Database) (rows : List GenerationRow)
    → ((j : Key) → key_eq k j ≡ false → rows_of j rows ≡ rows_of j db.generations)
    → Moves k db (record db { generations = rows })
generations-Moves k db rows kept = record {
  own = λ r found. (r, found, Advances-refl r);
  sound = λ h. h;
  others = λ j other. (refl, kept j other, λ operation. refl);
  storage = (refl, refl);
}

module _ (k : Key) (db : Database) where
  pub update_session-IsMove :
      (test : SessionRegistryRecord → Bool) (change : SessionRegistryRecord → SessionRegistryRecord)
      → ((r : SessionRegistryRecord)
          → select k db.sessions ≡ some r
          → test r ≡ true
          → (session_key (change r) ≡ session_key r) × Advances r (change r))
      → IsMove k (update_session k test change) db
  update_session-IsMove test change keeps a db' answer =
      elim (update_session-result k test change db db' a answer) [
        | inl (nothing, same) ↦ subst (Moves k db) (sym same) (Moves-refl k db)
        | inr (r, found, passed, _, allowed, changed) ↦
            let (same, step) = keeps r found passed in
            subst (Moves k db) (sym changed) (
              replace-Moves k r (change r) db found (same ∙ select-key k db.sessions r found) step
                allowed)
      ]

  names-own :
      (namespace : Text) (from : Option GenerationState) (g : GenerationRow)
      → names k namespace from g ≡ true
      → key_eq g.key k ≡ true
  unfolding names
  names-own namespace from g h = ground (arith, h)

  pub update_state-IsMove :
      (namespace : Text) (from : Option GenerationState) (state : GenerationState)
      → IsMove k (update_state k namespace from state) db
  unfolding update_state
  update_state-IsMove namespace from state a db' answer =
      elim (Option-cases (find_generation (names k namespace from) db.generations)) [
        | inl missing ↦ subst (Moves k db) (ground (arith, answer, missing)) (Moves-refl k db)
        | inr (g, found) ↦ subst (Moves k db) (ground (arith, answer, found)) (
            generations-Moves k db (set_states (names k namespace from) state db.generations)
              (λ j other.
                rows_of-set_states k j other (names k namespace from) state db.generations
                  (names-own namespace from)))
      ]

  pub insert_generation-IsMove :
      (new : GenerationRow) → new.key ≡ k → IsMove k (insert_generation new) db
  unfolding insert_generation
  insert_generation-IsMove new own a db' answer = subst (Moves k db) (ground (arith, answer)) (
      generations-Moves k db (db.generations ++ new ∷ [])
        (λ j other. rows_of-append k j other new db.generations own))

  pub insert_operation-IsMove :
      (new : OperationRow) → new.key ≡ k → IsMove k (insert_operation new) db
  unfolding insert_operation
  insert_operation-IsMove new own a db' answer = subst (Moves k db) (ground (arith, answer)) (
      let moved : Moves k db (record db { operations = db.operations ++ new ∷ [] }) = record {
        own = λ r found. (r, found, Advances-refl r);
        sound = λ h. h;
        others = λ j other. (
          refl,
          refl,
          λ operation. find_operation-append k j other operation new db.operations own,
        );
        storage = (refl, refl);
      } in
      moved)

  pub erase-Moves : Moves k db (record db {
    operations = without_operations k db.operations;
    generations = without_generations k db.generations;
  })
  erase-Moves = record {
    own = λ r found. (r, found, Advances-refl r);
    sound = λ h. h;
    others = λ j other. (
      refl,
      rows_of-without k j other db.generations,
      λ operation. find_operation-without k j other operation db.operations,
    );
    storage = (refl, refl);
  }
