-- ===== src/Transaction/Messages/Effects.antt =====
-- About one call of `SendMessage` of common/bitwrk/transaction.go.
use bitwrk.Base.{
  ℕ, ◌<◌, ◌≡◌, refl, sym, ap, ◌∙◌, inl, inr, true, false, Bool-cases, Option-cases, none, some, Str,
  Dict, Error, Result, lift-ends, arith, str_eq_iff, &&-true,
}
use bitwrk.Int.{pos}
use bitwrk.Int64.{◌+64◌}
use bitwrk.Transaction.{
  Origin, from_buyer, from_seller, from_unknown, TxPhase, establishing, active, phase_eq,
  Transaction,
}
use bitwrk.Transaction.Handlers.{
  Runtime, write_hashes, write_secret_hash, verify_secret, write_secret, parse_receipt,
  verify_receipt, parse_result_key, receipt_of, write_result, handle_worker_url, handle_work_hashes,
  handle_buyer_secret, handle_transmit_finished, error_of,
}
use bitwrk.Transaction.Messages.{
  PhaseTransition, Rule, phase_transition_rules, may_send, rule_fits, handle_message_default,
  Tmessage, arrive, advance, deliver, send_message,
}
use bitwrk.Transaction.Messages.Graph.{
  Edge, All, Follows, rules-Follows, find_rule-All, find_transition-All, Delivered,
  send_message-cases,
}

-- What no handler writes.
pub record Frame (a b : Transaction) : Type 0 where
  pub revision : b.revision ≡ a.revision
  pub parties : (b.buyer ≡ a.buyer) × (b.seller ≡ a.seller)
  pub money : (b.price ≡ a.price) × (b.fee ≡ a.fee)
  pub matched_at : b.matched_at ≡ a.matched_at
  pub state : b.state ≡ a.state
  pub phase : b.phase ≡ a.phase
  pub timeout : b.timeout ≡ a.timeout

Frame-refl : (tx : Transaction) → Frame tx tx
Frame-refl tx = ground arith

abbrev Keeps : (Dict Str → Transaction → Result (Unit {0}) × Transaction) → Type 0
Keeps handler = (arguments : Dict Str) (tx : Transaction) → Frame tx (handler arguments tx).1

handle_worker_url-Keeps : (r : Runtime) → Keeps (handle_worker_url r)
unfolding handle_worker_url
handle_worker_url-Keeps r arguments tx = ground arith

handle_work_hashes-Keeps : (r : Runtime) → Keeps (handle_work_hashes r)
unfolding handle_work_hashes
handle_work_hashes-Keeps r arguments tx =
    lift-ends (Frame tx) _ (write_hashes r arguments) tx (Frame-refl tx) λ hash e.
      lift-ends (Frame tx) _ (write_secret_hash r) (record tx { work_hash = some hash })
        (ground arith) (λ secret e'. ground arith)

handle_buyer_secret-Keeps : (r : Runtime) → Keeps (handle_buyer_secret r)
unfolding handle_buyer_secret
handle_buyer_secret-Keeps r arguments tx =
    lift-ends (Frame tx) _ (verify_secret r) tx (Frame-refl tx) λ secret e.
      lift-ends (Frame tx) _ (write_secret r secret) tx (Frame-refl tx) (λ u e'. ground arith)

handle_transmit_finished-Keeps : (r : Runtime) → Keeps (handle_transmit_finished r)
unfolding handle_transmit_finished
handle_transmit_finished-Keeps r arguments tx =
    lift-ends (Frame tx) _ (parse_receipt r arguments) tx (Frame-refl tx) λ hash e.
      lift-ends (Frame tx) _ (verify_receipt r arguments hash) tx (Frame-refl tx) λ signature e₂.
        lift-ends (Frame tx) _ (parse_result_key r arguments (receipt_of r hash signature)) tx
          (Frame-refl tx)
          λ u e₃.
            lift-ends (Frame tx) _ (write_result r (receipt_of r hash signature)) tx (Frame-refl tx)
              (λ key e₄. ground arith)

handle_message_default-Keeps : Keeps handle_message_default
unfolding handle_message_default
handle_message_default-Keeps arguments tx = ground arith

rules-Keeps : (r : Runtime) → All (λ q. Keeps q.handler) (phase_transition_rules r)
unfolding phase_transition_rules
rules-Keeps r = (
  handle_work_hashes-Keeps r,
  (
    handle_worker_url-Keeps r,
    (
      handle_buyer_secret-Keeps r,
      (
        handle_message_default-Keeps,
        (
          handle_transmit_finished-Keeps r,
          (handle_message_default-Keeps, (handle_message_default-Keeps, tt)),
        ),
      ),
    ),
  ),
)

-- A handler that was called, by how it ended.
pub deliver-none :
    (tx : Transaction) (now : ℕ) (arguments : Dict Str) (q : Rule) (t : PhaseTransition)
    → error_of (q.handler arguments tx).0 ≡ none
    → deliver tx now arguments q t ≡ (
      record {
        from = q.from;
        accepted = true;
        reject_message = none;
        pre_phase = tx.phase;
        post_phase = t.post_phase;
      },
      advance (q.handler arguments tx).1 tx.phase t.post_phase now,
    )
unfolding deliver
deliver-none tx now arguments q t e = rw (e, deliver)

deliver-some :
    (tx : Transaction) (now : ℕ) (arguments : Dict Str) (q : Rule) (t : PhaseTransition) (x : Error)
    → error_of (q.handler arguments tx).0 ≡ some x
    → ((deliver tx now arguments q t).0.accepted ≡ false)
      × ((deliver tx now arguments q t).1 ≡ (q.handler arguments tx).1)
unfolding deliver
deliver-some tx now arguments q t x e = rw (e, deliver) (refl, refl)

pub true≢false : true ≡ false → ⊥
true≢false h = cc

deliver-Frame :
    (r : Runtime) (tx : Transaction) (now : ℕ) (address : Str) (arguments : Dict Str)
    (v : Delivered r tx now address arguments)
    → (deliver tx now arguments v.rule v.transition).0.accepted ≡ false
    → Frame tx (deliver tx now arguments v.rule v.transition).1
deliver-Frame r tx now address arguments v h =
    elim (Option-cases (error_of (v.rule.handler arguments tx).0)) [
      | inl e ↦ absurd (true≢false (rw (deliver-none tx now arguments v.rule v.transition e) at h))
      | inr (x, e) ↦ rw (deliver-some tx now arguments v.rule v.transition x e).1 (
          (find_rule-All (λ q. Keeps q.handler) tx address arguments (phase_transition_rules r)
              v.rule (rules-Keeps r) v.found).0
            arguments tx)
    ]

-- The address is the party that an origin names.
abbrev pub IsSender : Origin → Str → Transaction → Type 0
IsSender from_buyer address tx = address ≡ tx.buyer
IsSender from_seller address tx = address ≡ tx.seller
IsSender from_unknown address tx = Unit

-- What an accepted message needs, and what it does to the frame of the transaction.
pub record Accepted (tx : Transaction) (now : ℕ) (address : Str) (m : Tmessage) (tx' : Transaction)
    : Type 0 where
  pub live : (tx.state ≡ active) × (now < tx.timeout)
  pub edge : Edge m.from tx.phase tx'.phase
  pub sent : IsSender m.from address tx
  pub reported : (m.pre_phase ≡ tx.phase) × (m.post_phase ≡ tx'.phase)
  pub counted : tx'.revision ≡ tx.revision +64 pos 1
  pub timed : tx'.timeout ≡ (advance tx tx.phase tx'.phase now).timeout
  pub kept :
      (tx'.buyer ≡ tx.buyer)
      × (tx'.seller ≡ tx.seller)
      × (tx'.price ≡ tx.price)
      × (tx'.fee ≡ tx.fee)
      × (tx'.matched_at ≡ tx.matched_at)
      × (tx'.state ≡ tx.state)

-- The effect of reaching a phase on all but the timeout.
arrive-Same :
    (p : TxPhase) (tx : Transaction) (now : ℕ)
    → ((arrive p tx now).phase ≡ tx.phase)
      × ((arrive p tx now).revision ≡ tx.revision)
      × ((arrive p tx now).buyer ≡ tx.buyer)
      × ((arrive p tx now).seller ≡ tx.seller)
      × ((arrive p tx now).price ≡ tx.price)
      × ((arrive p tx now).fee ≡ tx.fee)
      × ((arrive p tx now).matched_at ≡ tx.matched_at)
      × ((arrive p tx now).state ≡ tx.state)
unfolding arrive
arrive-Same establishing tx now = ground arith
arrive-Same _ tx now = ground arith

pub advance-Same :
    (tx : Transaction) (pre post : TxPhase) (now : ℕ)
    → ((advance tx pre post now).phase ≡ post)
      × ((advance tx pre post now).revision ≡ tx.revision +64 pos 1)
      × ((advance tx pre post now).buyer ≡ tx.buyer)
      × ((advance tx pre post now).seller ≡ tx.seller)
      × ((advance tx pre post now).price ≡ tx.price)
      × ((advance tx pre post now).fee ≡ tx.fee)
      × ((advance tx pre post now).matched_at ≡ tx.matched_at)
      × ((advance tx pre post now).state ≡ tx.state)
unfolding advance
advance-Same tx pre post now = elim (Bool-cases (phase_eq post pre)) [
  | inl e ↦ rw (e, advance) (refl, refl, refl, refl, refl, refl, refl, refl)
  | inr e ↦
      rw (e, advance)
        (arrive-Same post (record tx { phase = post; revision = tx.revision +64 pos 1 }) now)
]

arrive-timeout :
    (p : TxPhase) (a b : Transaction) (now : ℕ)
    → a.timeout ≡ b.timeout
    → (arrive p a now).timeout ≡ (arrive p b now).timeout
unfolding arrive
arrive-timeout establishing a b now h = h
arrive-timeout _ a b now h = ground arith

-- The new timeout depends on the old one, the phases and the time alone.
advance-timeout_ext :
    (a b : Transaction) (pre post : TxPhase) (now : ℕ)
    → a.timeout ≡ b.timeout
    → (advance a pre post now).timeout ≡ (advance b pre post now).timeout
unfolding advance
advance-timeout_ext a b pre post now h = elim (Bool-cases (phase_eq post pre)) [
  | inl e ↦ rw (e, advance) h
  | inr e ↦
      rw (e, advance)
        (arrive-timeout post (record a { phase = post; revision = a.revision +64 pos 1 })
          (record b { phase = post; revision = b.revision +64 pos 1 }) now h)
]

may_send-buyer :
    (tx : Transaction) (address : Str) → may_send tx address from_buyer ≡ true → address ≡ tx.buyer
unfolding may_send
may_send-buyer tx address h = (str_eq_iff address tx.buyer).0 h

may_send-seller :
    (tx : Transaction) (address : Str)
    → may_send tx address from_seller ≡ true
    → address ≡ tx.seller
unfolding may_send
may_send-seller tx address h = (str_eq_iff address tx.seller).0 h

may_send-IsSender :
    (tx : Transaction) (address : Str) (o : Origin)
    → may_send tx address o ≡ true
    → IsSender o address tx
may_send-IsSender tx address from_buyer h = may_send-buyer tx address h
may_send-IsSender tx address from_seller h = may_send-seller tx address h
may_send-IsSender tx address from_unknown h = tt

rule_fits-party :
    (tx : Transaction) (address : Str) (arguments : Dict Str) (q : Rule)
    → rule_fits tx address arguments q ≡ true
    → IsSender q.from address tx
unfolding rule_fits
rule_fits-party tx address arguments q h = may_send-IsSender tx address q.from (&&-true _ _ h).0

-- An accepted message that was delivered: its handler returned no error.
pub accepted-ended :
    (tx : Transaction) (now : ℕ) (arguments : Dict Str) (q : Rule) (t : PhaseTransition)
    → (deliver tx now arguments q t).0.accepted ≡ true
    → error_of (q.handler arguments tx).0 ≡ none
accepted-ended tx now arguments q t h = elim (Option-cases (error_of (q.handler arguments tx).0)) [
  | inl e ↦ e
  | inr (x, e) ↦ absurd (true≢false (sym h ∙ (deliver-some tx now arguments q t x e).0))
]

deliver-Accepted :
    (r : Runtime) (tx : Transaction) (now : ℕ) (address : Str) (arguments : Dict Str)
    (v : Delivered r tx now address arguments)
    → error_of (v.rule.handler arguments tx).0 ≡ none
    → Accepted tx now address
        (deliver tx now arguments v.rule v.transition).0
        (deliver tx now arguments v.rule v.transition).1
deliver-Accepted r tx now address arguments v ended =
    let q = v.rule in
    let t = v.transition in
    let (follows, fits) =
      find_rule-All (λ q. All (Follows q.from) q.transitions) tx address arguments
        (phase_transition_rules r) q (rules-Follows r) v.found in
    let (keeps, _) =
      find_rule-All (λ q. Keeps q.handler) tx address arguments (phase_transition_rules r) q
        (rules-Keeps r) v.found in
    let (edge, pre) =
      find_transition-All (Follows q.from) tx.phase q.transitions t follows v.moves in
    let party = rule_fits-party tx address arguments q fits in
    let (p, c, b, s, pr, fe, ma, st) =
      advance-Same (q.handler arguments tx).1 tx.phase t.post_phase now in
    let frame = keeps arguments tx in
    rw (deliver-none tx now arguments q t ended) (record {
      live = (v.is_live, v.in_time);
      edge = rw (p, ← pre) edge;
      sent = party;
      reported = (refl, sym p);
      timed = rw p (
          advance-timeout_ext (q.handler arguments tx).1 tx tx.phase t.post_phase now
            frame.timeout);
      counted = c ∙ ap (λ n. n +64 pos 1) frame.revision;
      kept = (
        b ∙ frame.parties.0,
        s ∙ frame.parties.1,
        pr ∙ frame.money.0,
        fe ∙ frame.money.1,
        ma ∙ frame.matched_at,
        st ∙ frame.state,
      );
    })

-- If a message is accepted, then the transaction was active and not timed out, the phase changes by
-- one of the moves that Edge lists, which are those of the rules in transaction.go (a result is
-- rejected into WORK_DISPUTED, and can be accepted in every open phase), the sender is the party that
-- the move names, the answer reports both phases, the revision is counted up, the timeout is the one that arriving at the new phase
-- sets, and the parties, the price, the fee, the time of the match and the state stay.
pub send_message-Accepted :
    (r : Runtime) (tx : Transaction) (now : ℕ) (address : Str) (arguments : Dict Str)
    → (send_message r tx now address arguments).0.accepted ≡ true
    → Accepted tx now address
        (send_message r tx now address arguments).0
        (send_message r tx now address arguments).1
send_message-Accepted r tx now address arguments h =
    elim (send_message-cases r tx now address arguments) [
      | inl v ↦ rw v.delivered (
          deliver-Accepted r tx now address arguments v
            (accepted-ended tx now arguments v.rule v.transition (rw v.delivered at h)))
      | inr (rejected, _) ↦ absurd (true≢false (sym h ∙ rejected))
    ]

-- If a message is not accepted, then the revision, the parties, the price, the fee, the time of the
-- match, the state, the phase and the timeout stay.
pub send_message-rejected :
    (r : Runtime) (tx : Transaction) (now : ℕ) (address : Str) (arguments : Dict Str)
    → (send_message r tx now address arguments).0.accepted ≡ false
    → Frame tx (send_message r tx now address arguments).1
send_message-rejected r tx now address arguments h =
    elim (send_message-cases r tx now address arguments) [
      | inl v ↦ rw v.delivered (deliver-Frame r tx now address arguments v (rw v.delivered at h))
      | inr (_, same) ↦ rw same (Frame-refl tx)
    ]
