-- ===== src/Verification/Resend.antt =====
-- A request that is sent again gets the challenge that it got before.
use agnostic_market.Base.{
  ℕ, ◌+◌, ◌≡◌, refl, sym, subst, ◌∙◌, inl, inr, true, false, Option, none, some, List, [], ◌∷◌,
  arith, is_some, Bool-cases, Option-cases, All,
}
use agnostic_market.Text.{Text, text_eq}
use agnostic_market.Text.Laws.{eq_of_text_eq, text_eq_iff, text_eq_refl}
use agnostic_market.Dict.{lookup}
use agnostic_market.Dict.Laws.{lookup-insert}
use agnostic_market.Effect.{ok, err, challenge_conflict}
use agnostic_market.Verification.Types.{
  OtpChallengeRequest, OtpChallenge, ChallengeState, request_eq,
}
use agnostic_market.Verification.Subjects.{subject_eq_refl, eq_of_subject_eq}
use agnostic_market.Verification.Provider.{
  OtpProvider, dispatch, new_challenge, known_challenge, fresh_state,
}
use agnostic_market.Verification.Attempts.{Event, guess, send, happen, happen_all}
use agnostic_market.Verification.Terms.{terms, verify-terms}

request_eq_refl : (r : OtpChallengeRequest) → request_eq r r ≡ true
unfolding request_eq
request_eq_refl r =
    ground (arith, subject_eq_refl r.subject, text_eq_refl r.dispatch_idempotency_key)

request_eq-fields :
    (a b : OtpChallengeRequest)
    → request_eq a b ≡ true
    → (a.subject ≡ b.subject)
      × (a.dispatch_idempotency_key ≡ b.dispatch_idempotency_key)
      × (a.max_attempts ≡ b.max_attempts)
unfolding request_eq
request_eq-fields a b same = ground (
  arith,
  eq_of_subject_eq a.subject b.subject,
  eq_of_text_eq a.dispatch_idempotency_key b.dispatch_idempotency_key,
)

eq_of_request_eq : (a b : OtpChallengeRequest) → request_eq a b ≡ true → a ≡ b
eq_of_request_eq a b same i =
    let (subject, key, attempts) = request_eq-fields a b same in
    record { subject = subject i; dispatch_idempotency_key = key i; max_attempts = attempts i }

-- What the provider holds once a request has been answered with a challenge of this id.
pub record IsSent (id : Text) (request : OtpChallengeRequest) (challenge : OtpChallenge)
    (p : OtpProvider) : Type 0 where
  pub state : ChallengeState
  pub of_tenant : request.subject.tenant_id ≡ p.tenant_id
  pub has_code : is_some (lookup request.subject.factor_ref p.codes_by_factor_ref) ≡ true
  pub by_key : lookup request.dispatch_idempotency_key p.challenge_by_dispatch ≡ some id
  pub held : lookup id p.challenges ≡ some state
  pub asked : state.request ≡ request
  pub sent : state.challenge ≡ challenge

known_challenge-sent :
    (id : Text) (request : OtpChallengeRequest) (challenge : OtpChallenge) (p p' : OtpProvider)
    → known_challenge id request p ≡ (ok challenge, p')
    → (p ≡ p')
      × (st : ChallengeState) × (lookup id p.challenges ≡ some st)
      × (st.request ≡ request)
      × (st.challenge ≡ challenge)
unfolding known_challenge
known_challenge-sent id request challenge p p' answer =
    elim (Option-cases (lookup id p.challenges)) [
      | inl gone ↦ ground (arith, answer)
      | inr (st, held) ↦ elim (Bool-cases (request_eq st.request request)) [
        | inl same ↦
            (ground arith, st, held, eq_of_request_eq st.request request same, ground arith)
        | inr other ↦ ground (arith, answer)
      ]
    ]

new_challenge-IsSent :
    (fresh : Text) (now : ℕ) (request : OtpChallengeRequest) (challenge : OtpChallenge)
    (p p' : OtpProvider)
    → request.subject.tenant_id ≡ p.tenant_id
    → is_some (lookup request.subject.factor_ref p.codes_by_factor_ref) ≡ true
    → new_challenge fresh now request p ≡ (ok challenge, p')
    → IsSent fresh request challenge p'
unfolding new_challenge fresh_state
new_challenge-IsSent fresh now request challenge p p' tenant code answer =
    let st = fresh_state fresh (now + p.challenge_ttl_seconds) request in
    let key = request.dispatch_idempotency_key in
    record {
      state = st;
      of_tenant = ground (arith, answer);
      has_code = ground (arith, answer);
      by_key =
          ground
            (arith, answer, lookup-insert key key fresh p.challenge_by_dispatch, text_eq_refl key);
      held = ground (arith, answer, lookup-insert fresh fresh st p.challenges, text_eq_refl fresh);
      asked = refl;
      sent = ground (arith, answer);
    }

-- A request that is answered is held, under the id it had or the one that was drawn.
pub dispatch-IsSent :
    (fresh : Text) (now : ℕ) (request : OtpChallengeRequest) (challenge : OtpChallenge)
    (p p' : OtpProvider)
    → dispatch fresh now request p ≡ (ok challenge, p')
    → (id : Text) × IsSent id request challenge p'
unfolding dispatch
dispatch-IsSent fresh now request challenge p p' answer =
    elim (Bool-cases (text_eq request.subject.tenant_id p.tenant_id)) [
      | inr other ↦ ground (arith, answer)
      | inl tenant ↦ elim (Option-cases (lookup request.subject.factor_ref p.codes_by_factor_ref)) [
        | inl no_code ↦ ground (arith, answer)
        | inr (code, secret) ↦
            elim (Option-cases (lookup request.dispatch_idempotency_key p.challenge_by_dispatch)) [
              | inl new ↦ (
                fresh,
                new_challenge-IsSent fresh now request challenge p p'
                    (ground (arith, eq_of_text_eq request.subject.tenant_id p.tenant_id))
                    (ground arith) (ground arith),
              )
              | inr (id, seen) ↦
                  let (same, st, held, asked, sent) =
                    known_challenge-sent id request challenge p p' (ground arith) in
                  (
                    id,
                    subst (IsSent id request challenge) same (record {
                      state = st;
                      of_tenant = eq_of_text_eq _ _ tenant;
                      has_code = ground arith;
                      by_key = seen;
                      held = held;
                      asked = asked;
                      sent = sent;
                    }),
                  )
            ]
      ]
    ]

-- A request that is held is answered from what is held.
IsSent-dispatch :
    (id fresh : Text) (now : ℕ) (request : OtpChallengeRequest) (challenge : OtpChallenge)
    (p : OtpProvider)
    → IsSent id request challenge p
    → dispatch fresh now request p ≡ (ok challenge, p)
unfolding dispatch known_challenge
IsSent-dispatch id fresh now request challenge p h = ground (
  arith,
  h.of_tenant,
  h.has_code,
  h.by_key,
  h.held,
  h.asked,
  h.sent,
  text_eq_refl p.tenant_id,
  request_eq_refl request,
)

-- Another request under its key is refused, where its tenant and its factor are known.
IsSent-conflict :
    (id fresh : Text) (now : ℕ) (request other : OtpChallengeRequest) (challenge : OtpChallenge)
    (p : OtpProvider)
    → IsSent id request challenge p
    → other.dispatch_idempotency_key ≡ request.dispatch_idempotency_key
    → request_eq request other ≡ false
    → other.subject.tenant_id ≡ p.tenant_id
    → is_some (lookup other.subject.factor_ref p.codes_by_factor_ref) ≡ true
    → dispatch fresh now other p ≡ (err challenge_conflict, p)
unfolding dispatch known_challenge
IsSent-conflict id fresh now request other challenge p h key differs tenant code =
    ground (arith, h.by_key, h.held, h.asked, text_eq_refl p.tenant_id)

pub dispatch-tenant :
    (fresh : Text) (now : ℕ) (request : OtpChallengeRequest) (p : OtpProvider)
    → (dispatch fresh now request p).1.tenant_id ≡ p.tenant_id
unfolding dispatch known_challenge new_challenge fresh_state
dispatch-tenant fresh now request p =
    elim (Option-cases (lookup request.dispatch_idempotency_key p.challenge_by_dispatch)) [
      | inl new ↦ ground arith
      | inr (existing, seen) ↦ ground arith
    ]

-- What an answer to another request leaves of a challenge that is held.
sent-dispatch :
    (id fresh : Text) (now : ℕ) (key : Text) (other : OtpChallengeRequest) (st : ChallengeState)
    (p : OtpProvider)
    → text_eq fresh id ≡ false
    → lookup key p.challenge_by_dispatch ≡ some id
    → lookup id p.challenges ≡ some st
    → let p' = (dispatch fresh now other p).1 in
      (p'.tenant_id ≡ p.tenant_id)
      × (p'.codes_by_factor_ref ≡ p.codes_by_factor_ref)
      × (lookup key p'.challenge_by_dispatch ≡ some id)
      × (lookup id p'.challenges ≡ some st)
unfolding dispatch known_challenge new_challenge fresh_state
sent-dispatch id fresh now key other st p drawn by_key held =
    elim (Option-cases (lookup other.dispatch_idempotency_key p.challenge_by_dispatch)) [
      | inl new ↦ ground (
        arith,
        lookup-insert fresh id (fresh_state fresh (now + p.challenge_ttl_seconds) other)
            p.challenges,
        lookup-insert other.dispatch_idempotency_key key fresh p.challenge_by_dispatch,
        text_eq_iff other.dispatch_idempotency_key key,
      )
      | inr (existing, seen) ↦ ground arith
    ]

terms-some :
    (found : Option ChallengeState) (request : OtpChallengeRequest) (challenge : OtpChallenge)
    → terms found ≡ some (request, challenge)
    → (st : ChallengeState) × (found ≡ some st)
      × (st.request ≡ request)
      × (st.challenge ≡ challenge)
terms-some none request challenge same = ground (arith, same)
terms-some (some st) request challenge same = (st, refl, ground arith, ground arith)

-- Ids that are drawn are other ids than this one.
abbrev pub DrawsOther : Text → Event → Type 0
DrawsOther id (send fresh now request) = text_eq fresh id ≡ false
DrawsOther id (guess now other code) = Unit

happen-IsSent :
    (id : Text) (request : OtpChallengeRequest) (challenge : OtpChallenge) (e : Event)
    (p : OtpProvider)
    → DrawsOther id e
    → IsSent id request challenge p
    → IsSent id request challenge (happen e p)
unfolding happen
happen-IsSent id request challenge (send fresh now other) p drawn h =
    let (tenant, codes, by_key, held) =
      sent-dispatch id fresh now request.dispatch_idempotency_key other h.state p drawn h.by_key
        h.held in
    record {
      state = h.state;
      of_tenant = h.of_tenant ∙ sym tenant;
      has_code = rw codes h.has_code;
      by_key = by_key;
      held = held;
      asked = h.asked;
      sent = h.sent;
    }
happen-IsSent id request challenge (guess now other code) p drawn h =
    let (tenant, codes, keys, same) = verify-terms id other now code p in
    let (st, held, asked, sent) =
      terms-some _ request challenge (ground (arith, same, h.held, h.asked, h.sent)) in
    record {
      state = st;
      of_tenant = h.of_tenant ∙ sym tenant;
      has_code = rw codes h.has_code;
      by_key = rw keys h.by_key;
      held = held;
      asked = asked;
      sent = sent;
    }

happen_all-IsSent :
    (id : Text) (request : OtpChallengeRequest) (challenge : OtpChallenge) (es : List Event)
    (p : OtpProvider)
    → All (DrawsOther id) es
    → IsSent id request challenge p
    → IsSent id request challenge (happen_all es p)
unfolding happen_all
happen_all-IsSent id request challenge [] p drawn h = h
happen_all-IsSent id request challenge (e ∷ es) p drawn h =
    happen_all-IsSent id request challenge es (happen e p) drawn.1
      (happen-IsSent id request challenge e p drawn.0 h)

-- What a request that was answered leaves, under the id that its key leads to.
answered-IsSent :
    (id fresh : Text) (now : ℕ) (request : OtpChallengeRequest) (challenge : OtpChallenge)
    (p p' : OtpProvider)
    → dispatch fresh now request p ≡ (ok challenge, p')
    → lookup request.dispatch_idempotency_key p'.challenge_by_dispatch ≡ some id
    → IsSent id request challenge p'
answered-IsSent id fresh now request challenge p p' answer leads =
    let (other, sent) = dispatch-IsSent fresh now request challenge p p' answer in
    let same : other ≡ id = ground (arith, sent.by_key, leads) in
    subst (λ i. IsSent i request challenge p') same sent

-- A request that was answered is answered with the same challenge again, and no second code is
-- sent: whatever guesses and requests come in between, as long as none of these draws the id of
-- that challenge, the provider stays as it is.
pub dispatch-once :
    (id fresh : Text) (now : ℕ) (request : OtpChallengeRequest) (challenge : OtpChallenge)
    (p p' : OtpProvider) (es : List Event) (again : Text) (later : ℕ)
    → dispatch fresh now request p ≡ (ok challenge, p')
    → lookup request.dispatch_idempotency_key p'.challenge_by_dispatch ≡ some id
    → All (DrawsOther id) es
    → dispatch again later request (happen_all es p') ≡ (ok challenge, happen_all es p')
dispatch-once id fresh now request challenge p p' es again later answer leads drawn =
    IsSent-dispatch id again later request challenge _ (
      happen_all-IsSent id request challenge es p' drawn
        (answered-IsSent id fresh now request challenge p p' answer leads))

-- A dispatch key is not used twice: after a request was answered, and whatever guesses and
-- requests come in between, another request under its key, of the provider's tenant and for a
-- factor that has a code, is refused as a conflict and changes nothing.
pub dispatch-conflict :
    (id fresh : Text) (now : ℕ) (request other : OtpChallengeRequest) (challenge : OtpChallenge)
    (p p' : OtpProvider) (es : List Event) (again : Text) (later : ℕ)
    → dispatch fresh now request p ≡ (ok challenge, p')
    → lookup request.dispatch_idempotency_key p'.challenge_by_dispatch ≡ some id
    → All (DrawsOther id) es
    → other.dispatch_idempotency_key ≡ request.dispatch_idempotency_key
    → request_eq request other ≡ false
    → other.subject.tenant_id ≡ (happen_all es p').tenant_id
    → is_some (lookup other.subject.factor_ref (happen_all es p').codes_by_factor_ref) ≡ true
    → dispatch again later other (happen_all es p') ≡ (err challenge_conflict, happen_all es p')
dispatch-conflict id fresh now request other challenge p p' es again later answer leads drawn =
    IsSent-conflict id again later request other challenge _ (
      happen_all-IsSent id request challenge es p' drawn
        (answered-IsSent id fresh now request challenge p p' answer leads))
