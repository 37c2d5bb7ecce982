-- ===== src/Registry/Rows.antt =====
-- What a statement on a table leaves under each key.
use agnostic_market.Base.{
  ◌≡◌, refl, ap, ◌∙◌, ◌⊎◌, inl, inr, ◌↔◌, true, false, none, some, List, [], ◌∷◌, ◌++◌, arith,
  if◌then◌else◌, Bool-cases,
}
use agnostic_market.Text.Laws.{text_eq_refl, eq_of_text_eq}
use agnostic_market.Registry.Types.{SessionRegistryRecord, Fault}
use agnostic_market.Registry.Database.{Key, key_eq, session_key, select, replace, Outcome, ok, err}

pub key_eq_refl : (k : Key) → key_eq k k ≡ true
unfolding key_eq
key_eq_refl k = ground (arith, text_eq_refl k.tenant_id, text_eq_refl k.logical_session_id)

pub eq_of_key_eq : (a b : Key) → key_eq a b ≡ true → a ≡ b
unfolding key_eq
eq_of_key_eq a b h = ground (
  arith,
  eq_of_text_eq a.tenant_id b.tenant_id,
  eq_of_text_eq a.logical_session_id b.logical_session_id,
)

pub key_eq_iff : (a b : Key) → (key_eq a b ≡ true) ↔ (a ≡ b)
key_eq_iff a b = (eq_of_key_eq a b, λ e. rw e (key_eq_refl b))

pub Outcome-cases :
    {A : Type 0} (o : Outcome A) → ((e : Fault) × (o ≡ err e)) ⊎ ((a : A) × (o ≡ ok a))
Outcome-cases (ok a) = inr (a, refl)
Outcome-cases (err e) = inl (e, refl)

pub select-key :
    (k : Key) (rows : List SessionRegistryRecord) (r : SessionRegistryRecord)
    → select k rows ≡ some r
    → session_key r ≡ k
unfolding select
select-key k [] r found = ground arith
select-key k (q ∷ rows) r found = elim (Bool-cases (key_eq (session_key q) k)) [
  | inl same ↦ rw (← (eq_of_key_eq (session_key q) k same)) (ground (arith, found, same))
  | inr other ↦ select-key k rows r (ground (arith, found, other))
]

pub select-replace_self :
    (k : Key) (new r : SessionRegistryRecord) (rows : List SessionRegistryRecord)
    → session_key new ≡ k
    → select k rows ≡ some r
    → select k (replace k new rows) ≡ some new
unfolding select replace
select-replace_self k new r [] same found = ground arith
select-replace_self k new r (q ∷ rows) same found =
    ground (arith, key_eq_refl k, ap (λ j. key_eq j k) same, select-replace_self k new r rows same)

pub select-replace_ne :
    (k j : Key) (new : SessionRegistryRecord) (rows : List SessionRegistryRecord)
    → session_key new ≡ k
    → key_eq k j ≡ false
    → select j (replace k new rows) ≡ select j rows
unfolding select replace
select-replace_ne k j new [] same other = refl
select-replace_ne k j new (q ∷ rows) same other = elim (Bool-cases (key_eq (session_key q) k)) [
  | inl here ↦
      let e : key_eq (session_key q) j ≡ false =
        ap (λ i. key_eq i j) (eq_of_key_eq (session_key q) k here) ∙ other in
      let f : key_eq (session_key new) j ≡ false = ap (λ i. key_eq i j) same ∙ other in
      ground (arith, here, e, f)
  | inr there ↦ ground (arith, there, select-replace_ne k j new rows same other)
]

pub select-insert :
    (j : Key) (new : SessionRegistryRecord) (rows : List SessionRegistryRecord)
    → select j (rows ++ new ∷ []) ≡ (elim (select j rows) [
      | some r ↦ some r
      | none ↦ if key_eq (session_key new) j then some new else none
    ])
unfolding select
select-insert j new [] = ground arith
select-insert j new (q ∷ rows) = ground (arith, select-insert j new rows)
