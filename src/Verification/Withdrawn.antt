-- ===== src/Verification/Withdrawn.antt =====
-- What a session that has been cleared still authorizes.
use agnostic_market.Base.{ℕ, ◌≡◌, ◌≢◌, ◌⊎◌, inl, inr, refl, false, [], arith}
use agnostic_market.Text.{Text}
use agnostic_market.Dict.{lookup}
use agnostic_market.Effect.{ok}
use agnostic_market.Effect.Laws.{Result-cases}
use agnostic_market.Verification.Types.{VerificationSubject}
use agnostic_market.Verification.Store.{
  OtpPort, VerificationStore, on_otp, current_level, fresh_proofs, highest, authorization_satisfies,
  challenge_satisfies, is_subject,
}
use agnostic_market.Verification.Session.{clear}

module _ {S : Type 0} (port : OtpPort S) where
  -- A session that was cleared is back at level 1, whatever its provider: no subject is authorized
  -- for any level, and no challenge counts. Where the provider refuses the cleanup, the proofs and
  -- the level stay as they were.
  pub clear-withdraws :
      (store : VerificationStore S) (now required : ℕ) (id : Text) (subject : VerificationSubject)
      → let (answer, store') = clear port store in
        ((answer ≡ ok tt)
          × (current_level now store' ≡ 1)
          × (authorization_satisfies now subject required store' ≡ false)
          × (challenge_satisfies now id subject required store' ≡ false))
        ⊎ ((answer ≢ ok tt)
            × (current_level now store' ≡ current_level now store)
            × (store'.proofs_by_challenge ≡ store.proofs_by_challenge))
  unfolding clear on_otp current_level fresh_proofs highest authorization_satisfies
      challenge_satisfies is_subject lookup
  clear-withdraws store now required id subject =
      elim (Result-cases (port.retain_only store.session_id [] store.otp).0) [
        | inl (e, failed) ↦ rw failed (inr (λ same. ground arith, refl, refl))
        | inr (done, answered) ↦ rw answered (inl (refl, refl, refl, refl))
      ]
