-- ===== src/Registry/Progress.antt =====
-- How a transaction of one session changes the registry: the record of that session only goes
-- forward, and nothing of another session changes. `Moves` is such a change.
use agnostic_market.Base.{
  ℕ, ◌≤◌, ◌<◌, ◌≡◌, refl, ◌∙◌, ◌⊎◌, inl, inr, Bool, true, false, Option, none, some, arith, not,
  ◌||◌, is_some, if◌then◌else◌,
}
use agnostic_market.Text.{Text}
use agnostic_market.Registry.Types.{
  SessionLifecycle, opening, active, closing, closed, lifecycle_eq, SessionRegistryRecord,
}
use agnostic_market.Registry.Database.{
  Key, key_eq, select, Database, ok, Transaction, ◌>>=◌, row_allowed,
}
use agnostic_market.Registry.Generations.{rows_of}
use agnostic_market.Registry.Publication.{find_operation}
use agnostic_market.Registry.Rows.{Outcome-cases}

unfoldable pub rank : SessionLifecycle → ℕ
rank opening = 0
rank active = 1
rank closing = 2
rank closed = 3

-- A session has a close operation from the moment that it closes.
unfoldable pub coherent : SessionRegistryRecord → Bool
coherent r =
    if lifecycle_eq r.lifecycle closing
    then is_some r.close_operation_id
    else lifecycle_eq r.lifecycle closed || not (is_some r.close_operation_id)

-- What holds of a stored record.
abbrev pub IsSound : SessionRegistryRecord → Type 0
IsSound r = (row_allowed r ≡ true) × (coherent r ≡ true)

-- A later record of a session: no counter falls, no lifecycle goes back, a close operation stays,
-- and the holder changes only with the fencing generation or by the close.
pub record Advances (r s : SessionRegistryRecord) : Type 0 where
  pub fence : r.fencing_generation ≤ s.fencing_generation
  pub life : rank r.lifecycle ≤ rank s.lifecycle
  pub revision : r.session_revision ≤ s.session_revision
  pub principal : r.principal_generation ≤ s.principal_generation
  pub holder :
      (r.fencing_generation < s.fencing_generation)
      ⊎ (rank s.lifecycle ≡ 3)
      ⊎ (s.lease_owner_id ≡ r.lease_owner_id)
  pub coherence : coherent r ≡ true → coherent s ≡ true
  pub operation : (r.close_operation_id ≡ none) ⊎ (s.close_operation_id ≡ r.close_operation_id)

pub Advances-refl : (r : SessionRegistryRecord) → Advances r r
Advances-refl r = record {
  fence = omega arith;
  life = omega arith;
  revision = omega arith;
  principal = omega arith;
  holder = inr (inr refl);
  coherence = λ h. h;
  operation = inr refl;
}

pub rank-le : (l : SessionLifecycle) → rank l ≤ 3
unfolding rank
rank-le opening = omega arith
rank-le active = omega arith
rank-le closing = omega arith
rank-le closed = omega arith

pub Advances-trans : {r s t : SessionRegistryRecord} → Advances r s → Advances s t → Advances r t
Advances-trans {r} {s} {t} a b = record {
  fence = omega arith;
  life = omega arith;
  revision = omega arith;
  principal = omega arith;
  holder = ground (arith, a.fence, b.fence, a.holder, b.holder, b.life, rank-le t.lifecycle);
  coherence = λ h. b.coherence (a.coherence h);
  operation = ground (arith, a.operation, b.operation);
}

-- The record of a session, later.
abbrev pub Later : SessionRegistryRecord → Option SessionRegistryRecord → Type 0
Later r found = (s : SessionRegistryRecord) × (found ≡ some s) × Advances r s

pub record Moves (k : Key) (db db' : Database) : Type 0 where
  pub own :
      (r : SessionRegistryRecord) → select k db.sessions ≡ some r → Later r (select k db'.sessions)
  pub sound :
      ((r : SessionRegistryRecord) → select k db.sessions ≡ some r → IsSound r)
      → (s : SessionRegistryRecord) → select k db'.sessions ≡ some s
      → IsSound s
  pub others :
      (j : Key)
      → key_eq k j ≡ false
      → (select j db'.sessions ≡ select j db.sessions)
        × (rows_of j db'.generations ≡ rows_of j db.generations)
        × ((operation : Text)
            → find_operation j operation db'.operations ≡ find_operation j operation db.operations)
  pub storage :
      (db'.checkpoint_rows ≡ db.checkpoint_rows) × (db'.write_manifests ≡ db.write_manifests)

module _ (k : Key) where
  pub Moves-refl : (db : Database) → Moves k db db
  Moves-refl db = record {
    own = λ r found. (r, found, Advances-refl r);
    sound = λ h. h;
    others = λ j other. (refl, refl, λ operation. refl);
    storage = (refl, refl);
  }

  pub Moves-trans : {a b c : Database} → Moves k a b → Moves k b c → Moves k a c
  Moves-trans p q = record {
    own = λ r found.
        let (s, there, first) = p.own r found in
        let (t, then', second) = q.own s there in (t, then', Advances-trans first second);
    sound = λ h. q.sound (p.sound h);
    others = λ j other.
        let (x, y, z) = p.others j other in
        let (x', y', z') = q.others j other in
        (x' ∙ x, y' ∙ y, λ operation. z' operation ∙ z operation);
    storage = (q.storage.0 ∙ p.storage.0, q.storage.1 ∙ p.storage.1);
  }

  -- Whatever a transaction answers, it is a move.
  abbrev pub IsMove : {A : Type 0} → Transaction A → Database → Type 0
  IsMove {A} m db = (a : A) (db' : Database) → m db ≡ ok (a, db') → Moves k db db'

  pub >>=-IsMove :
      {A B : Type 0} (m : Transaction A) (f : A → Transaction B) (db : Database)
      → IsMove m db
      → ((a : A) (db' : Database) → m db ≡ ok (a, db') → IsMove (f a) db')
      → IsMove (m >>= f) db
  unfolding ◌>>=◌
  >>=-IsMove m f db first rest b db'' answer = elim (Outcome-cases (m db)) [
    | inl (e, failed) ↦ ground (arith, answer, failed)
    | inr ((a, db'), passed) ↦
        Moves-trans (first a db' passed) (rest a db' passed b db'' (ground (arith, answer, passed)))
  ]
