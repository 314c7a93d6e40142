-- ===== src/Tests/Delivery.antt =====
-- A concrete transaction in which work is delivered, and then its result.
use bitwrk.Base.{
  ℕ, zero, suc, ◌≡◌, refl, true, some, List, [], ◌∷◌, ◌++◌, Str, Str-discrete, Dict, codes,
  all_bytes, lookup,
}
use bitwrk.Int.{◌+ℤ◌}
use bitwrk.Int64.{wrap64}
use bitwrk.Transaction.{Transaction, unverified, TxPhase-discrete}
use bitwrk.Transaction.Handlers.{
  Runtime, argument, handle_worker_url, must_parse_worker_url, matches_worker_url, safe_call,
  handle_work_hashes, handle_buyer_secret, handle_transmit_finished, must_parse_hash, matches_hash,
  hex_decode, hex_encode, must_parse_signature, must_verify_receipt,
}
use bitwrk.Transaction.Messages.{
  phase_transition_rules, arrive, may_send, has_all, rule_fits, find_matching_rule,
  find_matching_phase_transition, advance, deliver, follow, send_message, update_transaction,
  grant_time, retire_now,
}
use bitwrk.Transaction.Messages.Runs.{Event, run}
use bitwrk.Transaction.Messages.Secrets.{Attests, dossier, run-Attests}
use bitwrk.Tests.Runs.{alice, bob, fresh_tx}

abbrev drop : ℕ → Str → Str
drop zero s = s
drop (suc n) [] = []
drop (suc n) (c ∷ s) = drop n s

-- A runtime whose hash of a work hash and a secret is the secret.
abbrev telling : Runtime
telling = record {
  parse_request_uri = λ s. true;
  base64_decode = λ s. some s;
  base64_encode = λ s. s;
  sha256 = λ s. drop 32 s;
  verify_signature = λ document address signature. true;
}

abbrev digits : Str
digits = codes "0123456789abcdef0123456789abcdef"

abbrev work_digits : Str
work_digits = digits ++ codes "00000000000000000000000000000000"

abbrev secret_digits : Str
secret_digits = digits ++ codes "11111111111111111111111111111111"

abbrev event : ℕ → Str → Dict Str → Event
event now address arguments = record { now = now; address = address; arguments = arguments }

abbrev delivery : List Event
delivery =
    event 9 alice ((codes "workhash", work_digits) ∷ (codes "worksecrethash", secret_digits) ∷ [])
    ∷ event 10 bob ((codes "workerurl", codes "http://bob/") ∷ [])
    ∷ event 11 bob ((codes "buyersecret", secret_digits) ∷ [])
    ∷ event 12 bob (
        (codes "encresulthash", work_digits)
        ∷ (codes "encresulthashsig", codes "=" ++ work_digits)
        ∷ (codes "encresultkey", secret_digits)
        ∷ [])
    ∷ []

abbrev delivered : Transaction
delivered = (run telling fresh_tx delivery).1

delivered-unverified : delivered.phase ≡ unverified
unfolding run update_transaction send_message phase_transition_rules find_matching_rule rule_fits
    may_send has_all follow find_matching_phase_transition deliver safe_call advance arrive lookup
    Str-discrete TxPhase-discrete handle_worker_url must_parse_worker_url matches_worker_url
    all_bytes argument wrap64 handle_work_hashes handle_buyer_secret handle_transmit_finished
    must_parse_hash matches_hash hex_decode hex_encode must_parse_signature must_verify_receipt
    grant_time retire_now ◌+ℤ◌
delivered-unverified = refl

run-Attests_example : Attests telling unverified (dossier delivered)
unfolding run update_transaction send_message phase_transition_rules find_matching_rule rule_fits
    may_send has_all follow find_matching_phase_transition deliver safe_call advance arrive lookup
    Str-discrete TxPhase-discrete handle_worker_url must_parse_worker_url matches_worker_url
    all_bytes argument wrap64 handle_work_hashes handle_buyer_secret handle_transmit_finished
    must_parse_hash matches_hash hex_decode hex_encode must_parse_signature must_verify_receipt
    grant_time retire_now ◌+ℤ◌
run-Attests_example = run-Attests telling fresh_tx delivery refl
