-- ===== src/Verification/Cleanup.antt =====
-- `OtpProvider.retain_only`: the cleanup of a session's challenges.
use agnostic_market.Base.{
  Bool, false, ◌&&◌, none, some, List, [], ◌∷◌, null, not, is_some, all, any, if◌then◌else◌,
}
use agnostic_market.Text.{Text, text_eq, strip}
use agnostic_market.Dict.{Dict, lookup, erase, mem}
use agnostic_market.Effect.{◌>>=◌, ◌>>◌, gets, raise_if, modify, value_error, contract}
use agnostic_market.Verification.Types.{ChallengeState}
use agnostic_market.Verification.Provider.{OtpProvider, Call}

-- `self._challenge_by_dispatch.pop(...)` where the key still leads to the challenge
unfoldable pub forget : Text → Text → Dict Text → Dict Text
forget key id d = elim (lookup key d) [
  | some current ↦ if text_eq current id then erase key d else d
  | none ↦ d
]

-- The body of the last loop: one challenge is dropped.
unfoldable pub discard : Text → OtpProvider → OtpProvider
unfolding forget
discard id p = elim (lookup id p.challenges) [
  | some st ↦ record p {
    challenges = erase id p.challenges;
    challenge_by_dispatch = forget st.request.dispatch_idempotency_key id p.challenge_by_dispatch;
  }
  | none ↦ p
]

unfoldable pub discard_all : List Text → OtpProvider → OtpProvider
unfolding discard
discard_all [] p = p
discard_all (id ∷ ids) p = discard_all ids (discard id p)

-- Whether the cleanup of `session` that keeps `retained` drops this challenge.
unfoldable pub is_discarded : Text → List Text → Text → ChallengeState → Bool
is_discarded session retained id st =
    text_eq st.request.subject.session_id session && not (mem id retained)

unfoldable pub discarded_ids : Text → List Text → Dict ChallengeState → List Text
unfolding is_discarded
discarded_ids session retained [] = []
discarded_ids session retained ((id, st) ∷ d) =
    let rest = discarded_ids session retained d in
    if is_discarded session retained id st then id ∷ rest else rest

-- The state of one retained challenge belongs to another session, or to none.
unfoldable pub is_foreign : Text → Dict ChallengeState → Text → Bool
is_foreign session d id = elim (lookup id d) [
  | some st ↦ not (text_eq st.request.subject.session_id session)
  | none ↦ false
]

unfoldable pub retain_only : Text → List Text → Call (Unit {0})
unfolding is_foreign discard_all discarded_ids
retain_only session_id challenge_ids = do
  let session = strip session_id
  raise_if (null session) value_error
  held ← gets (λ p. p.challenges)
  raise_if (not (all (λ id. is_some (lookup id held)) challenge_ids)) contract
  raise_if (any (is_foreign session held) challenge_ids) contract
  modify (discard_all (discarded_ids session challenge_ids held))
