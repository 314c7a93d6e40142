-- ===== src/Transaction/Messages/Runs.antt =====
-- A transaction of common/bitwrk/transaction.go under a sequence of messages.
use bitwrk.Base.{
  ℕ, suc, ◌+◌, ◌*◌, ◌≤◌, ◌<◌, ◌≡◌, ◌≢◌, refl, ◌∙◌, ◌⊎◌, inl, inr, true, false, Bool-cases, List, [],
  ◌∷◌, Str, Dict, arith, if◌then◌else◌,
}
use bitwrk.Transaction.{
  Origin, TxPhase, establishing, buyer_established, seller_established, transmitting, working,
  unverified, finished, work_disputed, result_disputed, phase_eq, Transaction,
}
use bitwrk.Transaction.Handlers.{Runtime}
use bitwrk.Transaction.Messages.{second, minute, arrive, advance, send_message, update_transaction}
use bitwrk.Transaction.Messages.Graph.{
  Edge, announce_work, announce_work_late, announce_worker, announce_worker_late, start_early,
  start, refuse_unsent, refuse_sent, give_up, deliver_result, dispute, accept,
}
use bitwrk.Transaction.Messages.Effects.{Accepted, send_message-Accepted}

-- A message, with its sender and the time at which it arrives.
pub record Event : Type 0 where
  pub now : ℕ
  pub address : Str
  pub arguments : Dict Str

-- The stored transaction after a sequence of messages, and how many of them were accepted.
unfoldable pub run : Runtime → Transaction → List Event → ℕ × Transaction
run r tx [] = (0, tx)
run r tx (e ∷ es) =
    let (n, tx') = run r (update_transaction r tx e.now e.address e.arguments) es in
    ((if (send_message r tx e.now e.address e.arguments).0.accepted then suc n else n), tx')

-- How far a transaction has come.
abbrev pub rank : TxPhase → ℕ
rank establishing = 0
rank buyer_established = 1
rank seller_established = 1
rank transmitting = 2
rank working = 3
rank unverified = 4
rank finished = 5
rank work_disputed = 5
rank result_disputed = 5

Edge-rank : {o : Origin} {p q : TxPhase} → Edge o p q → rank p < rank q
Edge-rank announce_work = omega arith
Edge-rank announce_work_late = omega arith
Edge-rank announce_worker = omega arith
Edge-rank announce_worker_late = omega arith
Edge-rank start_early = omega arith
Edge-rank start = omega arith
Edge-rank refuse_unsent = omega arith
Edge-rank refuse_sent = omega arith
Edge-rank give_up = omega arith
Edge-rank deliver_result = omega arith
Edge-rank dispute = omega arith
Edge-rank (accept {p} f w d) = ground arith

rank_bound : (p : TxPhase) → rank p ≤ 5
rank_bound establishing = omega arith
rank_bound _ = omega arith

-- A message either advances the stored transaction by a rule, or leaves it alone.
pub update_transaction-cases :
    (r : Runtime) (tx : Transaction) (e : Event)
    → let (m, tx') = send_message r tx e.now e.address e.arguments in
      ((m.accepted ≡ true)
        × (update_transaction r tx e.now e.address e.arguments ≡ tx')
        × Accepted tx e.now e.address m tx')
      ⊎ ((m.accepted ≡ false) × (update_transaction r tx e.now e.address e.arguments ≡ tx))
unfolding update_transaction
update_transaction-cases r tx e =
    elim (Bool-cases (send_message r tx e.now e.address e.arguments).0.accepted) [
      | inl y ↦
          inl (
            y,
            rw (y, update_transaction),
            send_message-Accepted r tx e.now e.address e.arguments y,
          )
      | inr n ↦ inr (n, rw (n, update_transaction))
    ]

run-rank :
    (r : Runtime) (tx : Transaction) (es : List Event)
    → (run r tx es).0 + rank tx.phase ≤ rank (run r tx es).1.phase
unfolding run
run-rank r tx [] = omega arith
run-rank r tx (e ∷ es) = elim (update_transaction-cases r tx e) [
  | inl (y, same, acc) ↦
      rw (y, same)
        (omega (
          arith,
          run-rank r (send_message r tx e.now e.address e.arguments).1 es,
          Edge-rank acc.edge,
        ))
  | inr (n, same) ↦ rw (n, same) (run-rank r tx es)
]

-- However many messages are sent to a transaction, the number of those that it accepts and the rank
-- of the phase that it is in at first add up to at most five.
pub accepts_at_most_five :
    (r : Runtime) (tx : Transaction) (es : List Event) → (run r tx es).0 + rank tx.phase ≤ 5
accepts_at_most_five r tx es = omega (arith, run-rank r tx es, rank_bound (run r tx es).1.phase)

-- What every update keeps holds after any sequence of messages.
pub run-keeps {ℓ} :
    (P : Transaction → Type ℓ) (r : Runtime) (tx : Transaction) (es : List Event)
    → ((t : Transaction) (e : Event) → P t → P (update_transaction r t e.now e.address e.arguments))
    → P tx
    → P (run r tx es).1
unfolding run
run-keeps P r tx [] keep h = h
run-keeps P r tx (e ∷ es) keep h =
    run-keeps P r (update_transaction r tx e.now e.address e.arguments) es keep (keep tx e h)

Edge-disputed : {o : Origin} {p q : TxPhase} → Edge o p q → q ≢ result_disputed
Edge-disputed announce_work e = cc
Edge-disputed announce_work_late e = cc
Edge-disputed announce_worker e = cc
Edge-disputed announce_worker_late e = cc
Edge-disputed start_early e = cc
Edge-disputed start e = cc
Edge-disputed refuse_unsent e = cc
Edge-disputed refuse_sent e = cc
Edge-disputed give_up e = cc
Edge-disputed deliver_result e = cc
Edge-disputed dispute e = cc
Edge-disputed (accept f w d) e = cc

-- No sequence of messages brings a transaction that is in another phase into the phase
-- RESULT_DISPUTED.
pub never_result_disputed :
    (r : Runtime) (tx : Transaction) (es : List Event)
    → tx.phase ≢ result_disputed
    → (run r tx es).1.phase ≢ result_disputed
never_result_disputed r tx es h =
    run-keeps (λ t. t.phase ≢ result_disputed) r tx es
      (λ t e k. elim (update_transaction-cases r t e) [
        | inl (y, same, acc) ↦ rw same (Edge-disputed acc.edge)
        | inr (n, same) ↦ rw same k
      ])
      h

-- The time that a transaction has been granted by the phase that it is in.
abbrev pub granted : TxPhase → ℕ
granted establishing = 0
granted buyer_established = 0
granted seller_established = 0
granted transmitting = 2 * minute
granted working = 7 * minute
granted _ = 22 * minute

granted_bound : (p : TxPhase) → granted p ≤ 22 * minute
granted_bound establishing = omega arith
granted_bound _ = omega arith

advance-timeout :
    {o : Origin} {p q : TxPhase} (tx : Transaction) (now limit : ℕ)
    → Edge o p q
    → now < tx.timeout
    → tx.timeout ≤ limit + granted p
    → (advance tx p q now).timeout ≤ limit + granted q
unfolding advance arrive
advance-timeout tx now limit announce_work l h = ground arith
advance-timeout tx now limit announce_work_late l h = ground arith
advance-timeout tx now limit announce_worker l h = ground arith
advance-timeout tx now limit announce_worker_late l h = ground arith
advance-timeout tx now limit start_early l h = ground arith
advance-timeout tx now limit start l h = ground arith
advance-timeout tx now limit refuse_unsent l h = ground arith
advance-timeout tx now limit refuse_sent l h = ground arith
advance-timeout tx now limit give_up l h = ground arith
advance-timeout tx now limit deliver_result l h = ground arith
advance-timeout tx now limit dispute l h = ground arith
advance-timeout {o} {p} tx now limit (accept f w d) l h = elim (Bool-cases (phase_eq finished p)) [
  | inl e ↦ rw (e, advance) (omega (arith, granted_bound p))
  | inr e ↦ rw (e, advance) (omega (arith, granted_bound p))
]

-- If a transaction times out at most a minute, and the time that its phase has been granted, after
-- the match, then after any sequence of messages the time of the match is the same, and the timeout
-- is at most 23 minutes after it.
pub timeout_bounded :
    (r : Runtime) (tx : Transaction) (es : List Event)
    → tx.timeout ≤ tx.matched_at + 60 * second + granted tx.phase
    → let tx' = (run r tx es).1 in
      (tx'.matched_at ≡ tx.matched_at) × (tx'.timeout ≤ tx.matched_at + 23 * minute)
timeout_bounded r tx es h =
    let (same, bound) =
      run-keeps
        (λ t.
          (t.matched_at ≡ tx.matched_at)
          × (t.timeout ≤ tx.matched_at + 60 * second + granted t.phase))
        r tx es
        (λ t e k. elim (update_transaction-cases r t e) [
          | inl (y, same, acc) ↦ rw same (
            acc.kept.4 ∙ k.0,
            rw acc.timed
                (advance-timeout t e.now (tx.matched_at + 60 * second) acc.edge acc.live.1 k.1),
          )
          | inr (n, same) ↦ rw same k
        ])
        (refl, h) in
    (same, omega (arith, bound, granted_bound (run r tx es).1.phase))
