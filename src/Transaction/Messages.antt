-- ===== src/Transaction/Messages.antt =====
-- The interaction protocol of common/bitwrk/transaction.go: the table of rules, and `SendMessage`.
pub mod Graph
pub mod Effects
pub mod Secrets
pub mod Runs
pub mod Accepting
use bitwrk.Base.{
  ℕ, ◌+◌, ◌*◌, ◌≡◌, Bool, true, false, not, ◌&&◌, ◌||◌, Option, none, some, List, [], ◌∷◌, Str,
  codes, str_eq, length, leb, ltb, ◌==◌, Dict, lookup, if◌then◌else◌, Error, Result, ok, Action,
}
use bitwrk.Int.{ℤ, pos}
use bitwrk.Int64.{◌+64◌}
use bitwrk.Transaction.{
  Origin, from_buyer, from_seller, from_unknown, TxPhase, establishing, buyer_established,
  seller_established, transmitting, working, unverified, finished, work_disputed, result_disputed,
  is_active, phase_eq, TxPhase-discrete, Transaction, identify,
}
use bitwrk.Transaction.Handlers.{
  Runtime, handle_worker_url, handle_work_hashes, handle_buyer_secret, handle_transmit_finished,
  safe_call,
}

-- `handleMessageDefault`
unfoldable pub handle_message_default : Dict Str → Action Transaction (Unit {0})
handle_message_default arguments tx = (ok tt, tx)

pub record PhaseTransition : Type 0 where
  pub pre_phase : TxPhase
  pub post_phase : TxPhase

-- `phaseTransitionRule`, with the fields of its `messageType`.
pub record Rule : Type 0 where
  pub from : Origin
  pub handler : Dict Str → Action Transaction (Unit {0})
  pub arguments : List Str
  pub transitions : List PhaseTransition

infix 20 ◌to◌
abbrev pub ◌to◌ : TxPhase → TxPhase → PhaseTransition
p to q = record { pre_phase = p; post_phase = q }

abbrev pub rule :
    Origin → (Dict Str → Action Transaction (Unit {0})) → List Str → List PhaseTransition → Rule
rule from handler arguments transitions = record {
  from = from;
  handler = handler;
  arguments = arguments;
  transitions = transitions;
}

unfoldable pub phase_transition_rules : Runtime → List Rule
phase_transition_rules r =
    rule from_buyer (handle_work_hashes r) (codes "workhash" ∷ codes "worksecrethash" ∷ [])
      ((establishing to buyer_established) ∷ (seller_established to transmitting) ∷ [])
    ∷ rule from_seller (handle_worker_url r) (codes "workerurl" ∷ [])
        ((establishing to seller_established) ∷ (buyer_established to transmitting) ∷ [])
    ∷ rule from_seller (handle_buyer_secret r) (codes "buyersecret" ∷ [])
        ((buyer_established to working) ∷ (transmitting to working) ∷ [])
    ∷ rule from_seller handle_message_default (codes "rejectwork" ∷ []) (
        (seller_established to work_disputed)
        ∷ (transmitting to work_disputed)
        ∷ (working to work_disputed)
        ∷ [])
    ∷ rule from_seller (handle_transmit_finished r)
        (codes "encresulthash" ∷ codes "encresulthashsig" ∷ codes "encresultkey" ∷ [])
        ((working to unverified) ∷ [])
    ∷ rule from_buyer handle_message_default (codes "rejectresult" ∷ [])
        ((unverified to work_disputed) ∷ [])
    ∷ rule from_buyer handle_message_default (codes "acceptresult" ∷ []) (
        (establishing to finished)
        ∷ (buyer_established to finished)
        ∷ (seller_established to finished)
        ∷ (transmitting to finished)
        ∷ (working to finished)
        ∷ (unverified to finished)
        ∷ [])
    ∷ []

-- Times are nanoseconds.
abbrev pub second : ℕ
second = 1_000_000_000

abbrev pub minute : ℕ
minute = 60_000_000_000

unfoldable pub grant_time : ℕ → Transaction → ℕ → Transaction
grant_time t tx now = record tx { timeout = tx.timeout + t }

unfoldable pub retire_now : Transaction → ℕ → Transaction
retire_now tx now = record tx { timeout = now }

-- The entry of `phaseArrivalFuncs`, if any, applied to the transaction.
unfoldable pub arrive : TxPhase → Transaction → ℕ → Transaction
unfolding grant_time retire_now
arrive transmitting tx now = grant_time (2 * minute) tx now
arrive working tx now = grant_time (5 * minute) tx now
arrive unverified tx now = grant_time (15 * minute) tx now
arrive finished tx now = retire_now tx now
arrive work_disputed tx now = retire_now tx now
arrive result_disputed tx now = retire_now tx now
arrive establishing tx now = tx
arrive buyer_established tx now = tx
arrive seller_established tx now = tx

-- Whether the address may send a message of this origin.
unfoldable pub may_send : Transaction → Str → Origin → Bool
may_send tx address from_buyer = str_eq address tx.buyer
may_send tx address from_seller = str_eq address tx.seller
may_send tx address from_unknown = true

unfoldable pub has_all : Dict Str → List Str → Bool
unfolding lookup
has_all arguments [] = true
has_all arguments (name ∷ names) =
    let rest = has_all arguments names in
    elim (lookup name arguments) [ none ↦ false | some _ ↦ rest ]

unfoldable pub rule_fits : Transaction → Str → Dict Str → Rule → Bool
unfolding may_send has_all
rule_fits tx address arguments r =
    may_send tx address r.from
    && (length arguments == length r.arguments && has_all arguments r.arguments)

-- The loop of `findMatchingRule`.
unfoldable pub find_matching_rule : Transaction → Str → Dict Str → List Rule → Option Rule
unfolding rule_fits
find_matching_rule tx address arguments [] = none
find_matching_rule tx address arguments (r ∷ rs) =
    let rest = find_matching_rule tx address arguments rs in
    if rule_fits tx address arguments r then some r else rest

-- `findMatchingPhaseTransition`
unfoldable pub find_matching_phase_transition :
    TxPhase → List PhaseTransition → Option PhaseTransition
unfolding TxPhase-discrete
find_matching_phase_transition phase [] = none
find_matching_phase_transition phase (t ∷ ts) =
    let rest = find_matching_phase_transition phase ts in
    if phase_eq t.pre_phase phase then some t else rest

-- Why a message was rejected; the source has a text for each.
pub data Rejection : Type 0 where
  no_longer_active invalid_message_type invalid_transaction_phase : Rejection
  handler_failed : Error → Rejection

-- `Tmessage`, as far as `SendMessage` fills it in; `none` is the empty `RejectMessage`.
pub record Tmessage : Type 0 where
  pub from : Origin
  pub accepted : Bool
  pub reject_message : Option Rejection
  pub pre_phase : TxPhase
  pub post_phase : TxPhase

-- `new(Tmessage)`, with the phase of the transaction; the zero value of an origin is `from_buyer`.
abbrev pub blank : Transaction → Tmessage
blank tx = record {
  from = from_buyer;
  accepted = false;
  reject_message = none;
  pre_phase = tx.phase;
  post_phase = tx.phase;
}

-- The end of an accepted message.
unfoldable pub advance : Transaction → TxPhase → TxPhase → ℕ → Transaction
unfolding arrive TxPhase-discrete
advance tx pre post now =
    let tx' : Transaction = record tx { phase = post; revision = tx.revision +64 pos 1 } in
    if phase_eq post pre then tx' else arrive post tx' now

-- The part of `SendMessage` from the call of the handler on.
unfoldable pub deliver :
    Transaction → ℕ → Dict Str → Rule → PhaseTransition → Tmessage × Transaction
unfolding safe_call advance
deliver tx now arguments r t =
    let result : Tmessage = record (blank tx) { from = r.from; post_phase = t.post_phase } in
    let (outcome, tx') = safe_call (r.handler arguments) tx in
    elim outcome [
      | none ↦ (record result { accepted = true }, advance tx' tx.phase t.post_phase now)
      | some e ↦ (record result { reject_message = some (handler_failed e) }, tx')
    ]

abbrev pub reject : Transaction → Origin → Rejection → Tmessage × Transaction
reject tx from why = (record (blank tx) { from = from; reject_message = some why }, tx)

-- The part of `SendMessage` from the search for a phase transition on.
unfoldable pub follow : Transaction → ℕ → Dict Str → Rule → Tmessage × Transaction
unfolding find_matching_phase_transition deliver
follow tx now arguments r = elim (find_matching_phase_transition tx.phase r.transitions) [
  | none ↦ reject tx r.from invalid_transaction_phase
  | some t ↦ deliver tx now arguments r t
]

-- `!tx.Timeout.After(now)` is the second test.
unfoldable pub send_message : Runtime → Transaction → ℕ → Str → Dict Str → Tmessage × Transaction
unfolding find_matching_rule phase_transition_rules follow identify
send_message r tx now address arguments =
    if not (is_active tx.state) || not (ltb now tx.timeout)
    then reject tx from_buyer no_longer_active
    else (elim (find_matching_rule tx address arguments (phase_transition_rules r)) [
      | none ↦ reject tx (identify tx address) invalid_message_type
      | some found ↦ follow tx now arguments found
    ])

-- `UpdateTransaction` of server/gae/gae_main.go, on the stored transaction: a message that is not
-- accepted changes nothing.
unfoldable pub update_transaction : Runtime → Transaction → ℕ → Str → Dict Str → Transaction
unfolding send_message
update_transaction r tx now address arguments =
    let (message, tx') = send_message r tx now address arguments in
    if message.accepted then tx' else tx
