-- ===== src/Verification/Attempts.antt =====
-- The attempts of a challenge bound how often its code can be guessed.
use agnostic_market.Base.{
  ℕ, ◌+◌, ◌-◌, ◌≤◌, ◌≡◌, refl, subst, ◌∙◌, inl, inr, true, false, ◌&&◌, none, some, List, [], ◌∷◌,
  arith, All, leb, ltb, null, if◌then◌else◌, Bool-cases, Option-cases,
}
use agnostic_market.Text.{Text, text_eq, strip}
use agnostic_market.Text.Laws.{eq_of_text_eq, text_eq_refl}
use agnostic_market.Dict.{lookup, insert}
use agnostic_market.Dict.Laws.{lookup-insert}
use agnostic_market.Effect.{ok}
use agnostic_market.Verification.Types.{
  OtpChallengeRequest, OtpVerification, expired, exhausted, ChallengeState, valid_verification,
}
use agnostic_market.Verification.Provider.{
  OtpProvider, plain, outcome, verify_again, attempt, verify_state, verify, dispatch,
  known_challenge, fresh_state,
}

-- What can reach the provider while a challenge is open: a guess at some challenge, or a request
-- for a code, with the id drawn for it.
pub data Event : Type 0 where
  guess : (now : ℕ) (id code : Text) → Event
  send : (fresh : Text) (now : ℕ) (request : OtpChallengeRequest) → Event

unfoldable pub happen : Event → OtpProvider → OtpProvider
happen (guess now id code) p = (verify now id code p).1
happen (send fresh now request) p = (dispatch fresh now request p).1

unfoldable pub happen_all : List Event → OtpProvider → OtpProvider
unfolding happen
happen_all [] p = p
happen_all (e ∷ es) p = happen_all es (happen e p)

-- The guesses at one challenge before it expires.
unfoldable pub guesses : Text → ℕ → List Event → ℕ
guesses id expires [] = 0
guesses id expires (guess now other code ∷ es) =
    (if text_eq other id && ltb now expires then 1 else 0) + guesses id expires es
guesses id expires (send fresh now request ∷ es) = guesses id expires es

-- A guess at the challenge is wrong, and an id that is drawn is another one.
abbrev pub Misses : Text → Text → Event → Type 0
Misses id expected (guess now other code) =
    text_eq other id ≡ true → text_eq (strip code) expected ≡ false
Misses id expected (send fresh now request) = text_eq fresh id ≡ false

-- The provider holds the open challenge with `left` attempts, and `expected` is its code.
pub record IsOpen (id expected : Text) (expires left : ℕ) (p : OtpProvider) : Type 0 where
  pub state : ChallengeState
  pub held : lookup id p.challenges ≡ some state
  pub named : (strip id ≡ id) × (null id ≡ false)
  pub unverified : state.verified_at_epoch ≡ none
  pub secret : lookup state.request.subject.factor_ref p.codes_by_factor_ref ≡ some expected
  pub ends : state.challenge.expires_at_epoch ≡ expires
  pub remains : state.remaining_attempts ≡ left

known_challenge-frame :
    (existing_id : Text) (request : OtpChallengeRequest) (p : OtpProvider)
    → (known_challenge existing_id request p).1 ≡ p
unfolding known_challenge
known_challenge-frame existing_id request p = ground arith

-- A request for a code leaves the challenges of other ids and the codes as they are.
pub dispatch-frame :
    (id fresh : Text) (now : ℕ) (request : OtpChallengeRequest) (p : OtpProvider)
    → text_eq fresh id ≡ false
    → let p' = (dispatch fresh now request p).1 in
      (lookup id p'.challenges ≡ lookup id p.challenges)
      × (p'.codes_by_factor_ref ≡ p.codes_by_factor_ref)
unfolding dispatch
dispatch-frame id fresh now request p other =
    elim (Option-cases (lookup request.dispatch_idempotency_key p.challenge_by_dispatch)) [
      | inl new ↦ ground (
        arith,
        lookup-insert fresh id (fresh_state fresh (now + p.challenge_ttl_seconds) request)
            p.challenges,
      )
      | inr (existing_id, seen) ↦ ground (arith, known_challenge-frame existing_id request p)
    ]

outcome-frame : (v : OtpVerification) (p : OtpProvider) → (outcome v p).1 ≡ p
unfolding outcome
outcome-frame v p = ground arith

-- A guess at another challenge changes neither this one nor the codes.
pub verify-frame :
    (id : Text) (now : ℕ) (other code : Text) (p : OtpProvider)
    → text_eq other id ≡ false
    → let p' = (verify now other code p).1 in
      (lookup id p'.challenges ≡ lookup id p.challenges)
      × (p'.codes_by_factor_ref ≡ p.codes_by_factor_ref)
unfolding verify verify_state verify_again attempt
verify-frame id now other code p ne = grind (arith, lookup-insert, outcome-frame)

-- The provider as it stands after a change that leaves this challenge and the codes alone.
frame-IsOpen :
    (id expected : Text) (expires left : ℕ) (p p' : OtpProvider)
    → (lookup id p'.challenges ≡ lookup id p.challenges)
      × (p'.codes_by_factor_ref ≡ p.codes_by_factor_ref)
    → IsOpen id expected expires left p
    → IsOpen id expected expires left p'
frame-IsOpen id expected expires left p p' same h = record {
  state = h.state;
  held = same.0 ∙ h.held;
  named = h.named;
  unverified = h.unverified;
  secret = rw same.1 h.secret;
  ends = h.ends;
  remains = h.remains;
}

attempt-miss :
    (now : ℕ) (id code expected : Text) (st : ChallengeState) (p : OtpProvider)
    → text_eq (strip code) expected ≡ false
    → (attempt now id code expected st p).1 ≡ record p {
      challenges =
          insert id (record st { remaining_attempts = st.remaining_attempts - 1 }) p.challenges;
    }
unfolding attempt
attempt-miss now id code expected st p wrong = rw (wrong, outcome-frame) refl

verify_state-miss :
    (now : ℕ) (id code expected : Text) (st : ChallengeState) (p : OtpProvider)
    → st.verified_at_epoch ≡ none
    → text_eq (strip code) expected ≡ false
    → (verify_state now id code expected st p).1 ≡ (
        if ltb now st.challenge.expires_at_epoch && ltb 0 st.remaining_attempts
        then record p {
          challenges =
              insert id (record st { remaining_attempts = st.remaining_attempts - 1 }) p.challenges;
        }
        else p)
unfolding verify_state
verify_state-miss now id code expected st p fresh wrong = ground (
  arith,
  attempt-miss now id code expected st p wrong,
  outcome-frame (plain id expired) p,
  outcome-frame (plain id exhausted) p,
)

verify-held :
    (now : ℕ) (id code expected : Text) (st : ChallengeState) (p : OtpProvider)
    → lookup id p.challenges ≡ some st
    → lookup st.request.subject.factor_ref p.codes_by_factor_ref ≡ some expected
    → verify now id code p ≡ verify_state now id code expected st p
unfolding verify
verify-held now id code expected st p held secret = rw (held, secret) refl

-- A wrong guess before the challenge expires uses one attempt up.
guess-IsOpen :
    (id expected : Text) (expires left now : ℕ) (code : Text) (p : OtpProvider)
    → text_eq (strip code) expected ≡ false
    → IsOpen id expected expires left p
    → IsOpen id expected expires
        (if ltb now expires then left - 1 else left)
        (verify now id code p).1
guess-IsOpen id expected expires left now code p wrong h =
    let st = h.state in
    rw
      (
        verify-held now id code expected st p h.held h.secret,
        verify_state-miss now id code expected st p h.unverified wrong,
        h.ends,
        h.remains,
      )
      (elim (Bool-cases (ltb now expires)) [
        | inl early ↦ elim (Bool-cases (ltb 0 left)) [
          | inl some_left ↦
              rw (early, some_left)
                (record {
                  state = record st { remaining_attempts = left - 1 };
                  held = ground (
                    arith,
                    lookup-insert id id (record st { remaining_attempts = left - 1 }) p.challenges,
                    text_eq_refl id,
                  );
                  named = h.named;
                  unverified = h.unverified;
                  secret = h.secret;
                  ends = h.ends;
                  remains = refl;
                })
          | inr none_left ↦
              rw (early, none_left)
                (record {
                  state = st;
                  held = h.held;
                  named = h.named;
                  unverified = h.unverified;
                  secret = h.secret;
                  ends = h.ends;
                  remains = ground (arith, h.remains);
                })
        ]
        | inr late ↦ rw late h
      ])

happen-IsOpen :
    (id expected : Text) (expires left : ℕ) (e : Event) (p : OtpProvider)
    → Misses id expected e
    → IsOpen id expected expires left p
    → IsOpen id expected expires (left - guesses id expires (e ∷ [])) (happen e p)
unfolding happen guesses
happen-IsOpen id expected expires left (send fresh now request) p other h =
    subst (λ n. IsOpen id expected expires n (dispatch fresh now request p).1) (omega arith)
      (frame-IsOpen id expected expires left p _ (dispatch-frame id fresh now request p other) h)
happen-IsOpen id expected expires left (guess now other code) p miss h =
    elim (Bool-cases (text_eq other id)) [
      | inl same ↦
          rw (same, eq_of_text_eq other id same)
            (subst (λ n. IsOpen id expected expires n (verify now id code p).1) (ground arith)
              (guess-IsOpen id expected expires left now code p (miss same) h))
      | inr ne ↦ rw ne (
          subst (λ n. IsOpen id expected expires n (verify now other code p).1) (omega arith)
            (frame-IsOpen id expected expires left p _ (verify-frame id now other code p ne) h))
    ]

guesses-cons :
    (id : Text) (expires : ℕ) (e : Event) (es : List Event)
    → guesses id expires (e ∷ es) ≡ guesses id expires (e ∷ []) + guesses id expires es
unfolding guesses
guesses-cons id expires (guess now other code) es = ground arith
guesses-cons id expires (send fresh now request) es = ground arith

guesses-none : (id : Text) (expires left : ℕ) → left ≡ left - guesses id expires []
unfolding guesses
guesses-none id expires left = omega arith

happen_all-IsOpen :
    (id expected : Text) (expires left : ℕ) (es : List Event) (p : OtpProvider)
    → All (Misses id expected) es
    → IsOpen id expected expires left p
    → IsOpen id expected expires (left - guesses id expires es) (happen_all es p)
unfolding happen_all
happen_all-IsOpen id expected expires left [] p miss h =
    subst (λ n. IsOpen id expected expires n p) (guesses-none id expires left) h
happen_all-IsOpen id expected expires left (e ∷ es) p miss h =
    subst (λ n. IsOpen id expected expires n (happen_all es (happen e p)))
      (omega (arith, guesses-cons id expires e es))
      (happen_all-IsOpen id expected expires (left - guesses id expires (e ∷ [])) es (happen e p)
        miss.1 (happen-IsOpen id expected expires left e p miss.0 h))

-- A challenge without attempts refuses every code.
spent-refuses :
    (id expected : Text) (expires now : ℕ) (code : Text) (p : OtpProvider)
    → IsOpen id expected expires 0 p
    → verify now id code p ≡ (ok (plain id (if leb expires now then expired else exhausted)), p)
unfolding verify verify_state outcome plain valid_verification
spent-refuses id expected expires now code p h = ground arith

-- Guessing is bounded by the attempts: where a challenge is open, and as many wrong guesses were
-- made before its expiry as it has attempts, no later code is accepted, the right one included,
-- and the refusal changes nothing. Guesses at other challenges and requests for codes may come in
-- between, as long as an id that is drawn for a new challenge is not this one.
pub guessing_bounded :
    (id expected : Text) (expires left : ℕ) (es : List Event) (now : ℕ) (code : Text)
    (p : OtpProvider)
    → IsOpen id expected expires left p
    → All (Misses id expected) es
    → left ≤ guesses id expires es
    → verify now id code (happen_all es p)
      ≡ (ok (plain id (if leb expires now then expired else exhausted)), happen_all es p)
guessing_bounded id expected expires left es now code p h miss enough =
    spent-refuses id expected expires now code (happen_all es p) (
      subst (λ n. IsOpen id expected expires n (happen_all es p)) (omega arith)
        (happen_all-IsOpen id expected expires left es p miss h))
