-- ===== src/Verification/Tests.antt =====
-- One challenge at a provider of one factor, and the theorems at it.
use agnostic_market.Base.{
  ◌≡◌, ◌≢◌, ◌⊎◌, refl, arith, leb, some, List, [], ◌∷◌, true, false, if◌then◌else◌,
}
use agnostic_market.Text.{Text, codes, text_eq, strip, rstrip, lstrip, is_space}
use agnostic_market.Dict.{lookup, insert, erase, mem}
use agnostic_market.Effect.{ok, err, challenge_conflict}
use agnostic_market.Spoken.Digits.{spoken_digits}
use agnostic_market.Verification.Types.{
  VerificationSubject, identity, OtpChallengeRequest, OtpChallenge, OtpVerification, verified,
  expired, exhausted, purpose_eq, subject_eq, request_eq, valid_request, valid_verification,
}
use agnostic_market.Verification.Provider.{
  OtpProvider, new_challenge, known_challenge, fresh_state, dispatch, plain, outcome,
  verified_outcome, save, verify_again, attempt, verify_state, verify,
}
use agnostic_market.Verification.Attempts.{
  Event, guess, send, happen, happen_all, guesses, IsOpen, guessing_bounded,
}
use agnostic_market.Verification.Store.{
  VerificationStore, new_store, proof_is_fresh, proof_satisfies, fresh_proofs, highest,
  current_level, authorization_satisfies, is_subject, challenge_satisfies, minted, on_otp,
}
use agnostic_market.Verification.Session.{
  record_subject, dispatch_otp, keep_proof, accept, settle, spoken_code, verify_otp, clear,
}
use agnostic_market.Verification.Runs.{SessionCall, dispatches, verifies, step, run}
use agnostic_market.Verification.Bound.{IsBound}
use agnostic_market.Verification.Authority.{Rests, run-authorized, run-IsBound, new_store-IsBound}
use agnostic_market.Verification.Codes.{IsProven, verify_sound}
use agnostic_market.Verification.Resend.{dispatch-once, dispatch-conflict}
use agnostic_market.Verification.Fixture.{
  fixture, fixture-KeepsTenant, IsUnlocked, verify_otp-right_code,
}
use agnostic_market.Verification.Withdrawn.{clear-withdraws}

program : Unit {0}
unfolding text_eq strip rstrip lstrip is_space lookup insert erase mem spoken_digits purpose_eq
    subject_eq request_eq valid_request valid_verification new_challenge known_challenge fresh_state
    dispatch plain outcome verified_outcome save verify_again attempt verify_state verify happen
    happen_all guesses new_store proof_is_fresh proof_satisfies fresh_proofs highest current_level
    authorization_satisfies is_subject challenge_satisfies minted on_otp record_subject dispatch_otp
    keep_proof accept settle spoken_code verify_otp clear step run
program = tt

abbrev provider : OtpProvider
provider = record {
  tenant_id = codes "shop";
  codes_by_factor_ref = (codes "F-1", codes "482913") ∷ [];
  challenge_ttl_seconds = 300;
  proof_ttl_seconds = 600;
  challenge_by_dispatch = [];
  challenges = [];
  dispatch_count = 0;
}

abbrev subject : VerificationSubject
subject = record {
  tenant_id = codes "shop";
  session_id = codes "s-1";
  customer_ref = codes "CUST-001";
  factor_ref = codes "F-1";
  purpose = identity;
}

abbrev request : OtpChallengeRequest
request = record { subject = subject; dispatch_idempotency_key = codes "k-1"; max_attempts = 2 }

abbrev other : OtpChallengeRequest
other = record { subject = subject; dispatch_idempotency_key = codes "k-1"; max_attempts = 9 }

abbrev challenge : OtpChallenge
challenge = record { challenge_id = codes "ch-1"; expires_at_epoch = 1300 }

abbrev asked : OtpProvider
asked = (dispatch (codes "ch-1") 1000 request provider).1

sent : dispatch (codes "ch-1") 1000 request provider ≡ (ok challenge, asked)
unfolding program
sent = refl

asked-IsOpen : IsOpen (codes "ch-1") (codes "482913") 1300 2 asked
unfolding program
asked-IsOpen = record {
  state = fresh_state (codes "ch-1") 1300 request;
  held = refl;
  named = (refl, refl);
  unverified = refl;
  secret = refl;
  ends = refl;
  remains = refl;
}

abbrev tries : List Event
tries =
    guess 1001 (codes "ch-1") (codes "482914")
    ∷ send (codes "ch-2") 1002 request
    ∷ guess 1003 (codes "ch-1") (codes "000000")
    ∷ []

guessing_bounded_example : verify 1004 (codes "ch-1") (codes "482913") (happen_all tries asked) ≡ (
  ok (plain (codes "ch-1") (if leb 1300 1004 then expired else exhausted)),
  happen_all tries asked,
)
unfolding program
guessing_bounded_example =
    guessing_bounded (codes "ch-1") (codes "482913") 1300 2 tries 1004 (codes "482913") asked
      asked-IsOpen ((λ same. refl), (refl, ((λ same. refl), tt))) (omega arith)

dispatch-once_example :
    dispatch (codes "ch-3") 1005 request (happen_all tries asked)
    ≡ (ok challenge, happen_all tries asked)
unfolding program
dispatch-once_example =
    dispatch-once (codes "ch-1") (codes "ch-1") 1000 request challenge provider asked tries
      (codes "ch-3") 1005 sent refl (tt, (refl, (tt, tt)))

dispatch-conflict_example :
    dispatch (codes "ch-3") 1005 other (happen_all tries asked)
    ≡ (err challenge_conflict, happen_all tries asked)
unfolding program
dispatch-conflict_example =
    dispatch-conflict (codes "ch-1") (codes "ch-1") 1000 request other challenge provider asked
      tries (codes "ch-3") 1005 sent refl (tt, (refl, (tt, tt))) refl refl refl refl

abbrev answered : OtpVerification
answered = record {
  challenge_id = codes "ch-1";
  status = verified;
  subject = some subject;
  verified_at_epoch = some 1001;
  proof_expires_at_epoch = some 1601;
}

right_code :
    verify 1001 (codes "ch-1") (codes " 482913") asked
    ≡ (ok answered, (verify 1001 (codes "ch-1") (codes " 482913") asked).1)
unfolding program
right_code = refl

verify_sound_example : IsProven 1001 (codes "ch-1") (codes " 482913") asked answered
verify_sound_example =
    verify_sound 1001 (codes "ch-1") (codes " 482913") asked
      (verify 1001 (codes "ch-1") (codes " 482913") asked).1 answered right_code refl

abbrev session : VerificationStore OtpProvider
session = record {
  otp = provider;
  session_id = codes "s-1";
  subjects_by_challenge = [];
  proofs_by_challenge = [];
}

opened : new_store provider (codes " s-1") ≡ ok session
unfolding program
opened = refl

abbrev challenged : List SessionCall
challenged = dispatches (codes "ch-1") 1000 subject (codes "k-1") 2 ∷ []

abbrev spoken : Text
spoken = codes "four eight two nine one three"

abbrev proven : List SessionCall
proven =
    dispatches (codes "ch-1") 1000 subject (codes "k-1") 2
    ∷ verifies (codes "pr-1") 1001 1001 (codes "ch-1") spoken
    ∷ []

authorized : authorization_satisfies 1100 subject 2 (run fixture proven session) ≡ true
unfolding program
authorized = refl

run-authorized_example :
    (subject.tenant_id ≡ provider.tenant_id)
    × (subject.session_id ≡ strip (codes " s-1"))
    × Rests fixture 1100 subject (run fixture proven session)
run-authorized_example =
    run-authorized fixture provider (codes " s-1") session proven 1100 subject 2 fixture-KeepsTenant
      opened authorized

abbrev waiting : VerificationStore OtpProvider
waiting = run fixture challenged session

abbrev accepted : VerificationStore OtpProvider
accepted = (verify_otp fixture (codes "pr-1") 1001 1001 (codes "ch-1") spoken waiting).1

waiting-IsBound : IsBound fixture (codes "shop") (strip (codes " s-1")) waiting
waiting-IsBound =
    run-IsBound fixture (codes "shop") (strip (codes " s-1")) challenged session fixture-KeepsTenant
      (new_store-IsBound fixture provider (codes " s-1") session opened)

accepts :
    verify_otp fixture (codes "pr-1") 1001 1001 (codes "ch-1") spoken waiting
    ≡ (ok verified, accepted)
unfolding program
accepts = refl

verify_otp-right_code_example : IsUnlocked 1001 (codes "ch-1") spoken waiting accepted
verify_otp-right_code_example =
    verify_otp-right_code (codes "shop") (strip (codes " s-1")) (codes "pr-1") 1001 1001
      (codes "ch-1") spoken waiting accepted waiting-IsBound accepts

clear-withdraws_example :
    let (answer, cleared) = clear fixture accepted in
    ((answer ≡ ok tt)
      × (current_level 1100 cleared ≡ 1)
      × (authorization_satisfies 1100 subject 1 cleared ≡ false)
      × (challenge_satisfies 1100 (codes "ch-1") subject 1 cleared ≡ false))
    ⊎ ((answer ≢ ok tt)
        × (current_level 1100 cleared ≡ current_level 1100 accepted)
        × (cleared.proofs_by_challenge ≡ accepted.proofs_by_challenge))
clear-withdraws_example = clear-withdraws fixture accepted 1100 1 (codes "ch-1") subject
