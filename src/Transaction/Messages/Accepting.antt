-- ===== src/Transaction/Messages/Accepting.antt =====
-- About the message of common/bitwrk/transaction.go by which the buyer accepts a result.
use bitwrk.Base.{
  ℕ, ◌<◌, ◌≡◌, refl, true, Bool-cases, some, [], ◌∷◌, Str, Str-discrete, codes, str_eq, str_eq_iff,
  Dict, lookup, ltb, inl, inr, arith,
}
use bitwrk.Transaction.{
  from_buyer, TxPhase, establishing, buyer_established, seller_established, transmitting, working,
  unverified, finished, work_disputed, result_disputed, TxPhase-discrete, active, Transaction,
}
use bitwrk.Transaction.Handlers.{Runtime, safe_call}
use bitwrk.Transaction.Messages.{
  Rule, rule, ◌to◌, handle_message_default, phase_transition_rules, find_matching_rule, rule_fits,
  may_send, has_all, find_matching_phase_transition, follow, deliver, advance, arrive, retire_now,
  send_message,
}
use bitwrk.Transaction.Messages.Runs.{rank}

-- The message by which the buyer accepts a result.
abbrev pub accept_result : Str → Dict Str
accept_result v = (codes "acceptresult", v) ∷ []

abbrev acceptance : Rule
acceptance = rule from_buyer handle_message_default (codes "acceptresult" ∷ []) (
    (establishing to finished)
    ∷ (buyer_established to finished)
    ∷ (seller_established to finished)
    ∷ (transmitting to finished)
    ∷ (working to finished)
    ∷ (unverified to finished)
    ∷ [])

acceptance-found :
    (r : Runtime) (tx : Transaction) (v : Str)
    → find_matching_rule tx tx.buyer (accept_result v) (phase_transition_rules r) ≡ some acceptance
unfolding find_matching_rule phase_transition_rules rule_fits may_send has_all lookup Str-discrete
acceptance-found r tx v =
    let self : str_eq tx.buyer tx.buyer ≡ true = (str_eq_iff tx.buyer tx.buyer).1 refl in
    elim (Bool-cases (str_eq tx.buyer tx.seller)) [
      | inl y ↦ rw (self, y) refl
      | inr n ↦ rw (self, n) refl
    ]

-- Where an acceptance leads, from any phase but the last ones.
follow-finished :
    (tx : Transaction) (p : TxPhase) (now : ℕ) (v : Str)
    → tx.phase ≡ p
    → rank p < 5
    → let (m, tx') = follow tx now (accept_result v) acceptance in
      (m.accepted ≡ true) × (tx'.phase ≡ finished) × (tx'.timeout ≡ now)
unfolding follow find_matching_phase_transition deliver safe_call advance arrive retire_now
    handle_message_default TxPhase-discrete
follow-finished tx establishing now v e l = rw e (refl, refl, refl)
follow-finished tx buyer_established now v e l = rw e (refl, refl, refl)
follow-finished tx seller_established now v e l = rw e (refl, refl, refl)
follow-finished tx transmitting now v e l = rw e (refl, refl, refl)
follow-finished tx working now v e l = rw e (refl, refl, refl)
follow-finished tx unverified now v e l = rw e (refl, refl, refl)
follow-finished tx finished now v e l = absurd (omega (arith, l))
follow-finished tx work_disputed now v e l = absurd (omega (arith, l))
follow-finished tx result_disputed now v e l = absurd (omega (arith, l))

ltb_complete : (a b : ℕ) → a < b → ltb a b ≡ true
ltb_complete a b h = ground arith

-- While a transaction is active, has not timed out and is in none of the last phases, the buyer's
-- acceptance of the result is accepted: the transaction is finished, and times out at once.
pub send_message-finished :
    (r : Runtime) (tx : Transaction) (now : ℕ) (v : Str)
    → tx.state ≡ active
    → now < tx.timeout
    → rank tx.phase < 5
    → let (m, tx') = send_message r tx now tx.buyer (accept_result v) in
      (m.accepted ≡ true) × (tx'.phase ≡ finished) × (tx'.timeout ≡ now)
unfolding send_message
send_message-finished r tx now v e l k =
    rw (e, ltb_complete now tx.timeout l, acceptance-found r tx v)
      (follow-finished tx tx.phase now v refl k)
