-- ===== src/Tests/Runs.antt =====
-- A concrete transaction between a buyer and a seller, and the messages that drive it.
use bitwrk.Base.{
  ◌≡◌, ◌≢◌, ◌≤◌, ◌+◌, ◌*◌, refl, true, false, none, some, List, [], ◌∷◌, Str, Str-discrete, codes,
  all_bytes, lookup, arith,
}
use bitwrk.Int.{pos}
use bitwrk.Int64.{wrap64}
use bitwrk.Money.{btc, money}
use bitwrk.Transaction.{Transaction, establishing, result_disputed, TxPhase-discrete, active}
use bitwrk.Transaction.Handlers.{
  Runtime, argument, handle_worker_url, must_parse_worker_url, matches_worker_url, safe_call,
}
use bitwrk.Transaction.Messages.{
  second, minute, phase_transition_rules, arrive, may_send, has_all, rule_fits, find_matching_rule,
  find_matching_phase_transition, advance, deliver, follow, handle_message_default, send_message,
}
use bitwrk.Transaction.Messages.Effects.{
  Frame, Accepted, send_message-Accepted, send_message-rejected,
}
use bitwrk.Transaction.Messages.Runs.{
  Event, run, rank, accepts_at_most_five, never_result_disputed, timeout_bounded,
}
use bitwrk.Transaction.Messages.Accepting.{accept_result, send_message-finished}
use bitwrk.Transaction.{finished}

-- A runtime in which every URI, encoding and signature is accepted.
abbrev pub lenient : Runtime
lenient = record {
  parse_request_uri = λ s. true;
  base64_decode = λ s. some s;
  base64_encode = λ s. s;
  sha256 = λ s. s;
  verify_signature = λ document address signature. true;
}

abbrev pub alice : Str
alice = codes "alice"

abbrev pub bob : Str
bob = codes "bob"

abbrev pub fresh_tx : Transaction
fresh_tx = record {
  revision = pos 0;
  buyer_bid = codes "b";
  seller_bid = codes "s";
  buyer = alice;
  seller = bob;
  article = codes "fnord";
  price = money (pos 1_000) btc;
  fee = money (pos 30) btc;
  matched_at = 5;
  state = active;
  phase = establishing;
  timeout = 5 + 60 * second;
  worker_url = none;
  work_hash = none;
  work_secret_hash = none;
  buyer_secret = none;
  encrypted_result_receipt = none;
  result_decryption_key = none;
}

abbrev hello : Event
hello = record { now = 9; address = bob; arguments = (codes "workerurl", codes "http://bob/") ∷ [] }

abbrev reject_it : Event
reject_it = record { now = 10; address = bob; arguments = (codes "rejectwork", codes "on") ∷ [] }

abbrev messages : List Event
messages = hello ∷ reject_it ∷ []

hello-accepted : (send_message lenient fresh_tx 9 bob hello.arguments).0.accepted ≡ true
unfolding send_message phase_transition_rules find_matching_rule rule_fits may_send has_all follow
    find_matching_phase_transition deliver safe_call advance arrive lookup Str-discrete
    TxPhase-discrete handle_worker_url must_parse_worker_url matches_worker_url all_bytes argument
    wrap64
hello-accepted = refl

send_message-Accepted_example :
    Accepted fresh_tx 9 bob
      (send_message lenient fresh_tx 9 bob hello.arguments).0
      (send_message lenient fresh_tx 9 bob hello.arguments).1
send_message-Accepted_example =
    send_message-Accepted lenient fresh_tx 9 bob hello.arguments hello-accepted

-- The seller may not reject work before it was announced.
reject-rejected : (send_message lenient fresh_tx 10 bob reject_it.arguments).0.accepted ≡ false
unfolding send_message phase_transition_rules find_matching_rule rule_fits may_send has_all follow
    find_matching_phase_transition deliver safe_call advance arrive lookup Str-discrete
    TxPhase-discrete handle_message_default
reject-rejected = refl

send_message-rejected_example :
    Frame fresh_tx (send_message lenient fresh_tx 10 bob reject_it.arguments).1
send_message-rejected_example =
    send_message-rejected lenient fresh_tx 10 bob reject_it.arguments reject-rejected

accepts_at_most_five_example : (run lenient fresh_tx messages).0 + rank establishing ≤ 5
accepts_at_most_five_example = accepts_at_most_five lenient fresh_tx messages

establishing-undisputed : establishing ≢ result_disputed
establishing-undisputed e = cc

never_result_disputed_example : (run lenient fresh_tx messages).1.phase ≢ result_disputed
never_result_disputed_example =
    never_result_disputed lenient fresh_tx messages establishing-undisputed

timeout_bounded_example :
    let tx' = (run lenient fresh_tx messages).1 in
    (tx'.matched_at ≡ 5) × (tx'.timeout ≤ 5 + 23 * minute)
timeout_bounded_example = timeout_bounded lenient fresh_tx messages (omega arith)

send_message-finished_example :
    let (m, tx') = send_message lenient fresh_tx 9 alice (accept_result (codes "on")) in
    (m.accepted ≡ true) × (tx'.phase ≡ finished) × (tx'.timeout ≡ 9)
send_message-finished_example =
    send_message-finished lenient fresh_tx 9 (codes "on") refl (omega arith) (omega arith)
