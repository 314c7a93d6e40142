-- ===== src/Transaction/Messages/Graph.antt =====
-- The moves between phases that the rules of common/bitwrk/transaction.go allow, and how a message
-- finds its rule.
use bitwrk.Base.{
  ℕ, ◌<◌, ◌≡◌, ◌≢◌, refl, true, false, Bool-cases, Option-cases, ◌⊎◌, none, some, List, [], ◌∷◌,
  Str, Dict, inl, inr, arith, ltb, not, ◌||◌, if◌then◌else◌,
}
use bitwrk.Transaction.{
  Origin, from_buyer, from_seller, TxPhase, establishing, buyer_established, seller_established,
  transmitting, working, unverified, finished, work_disputed, result_disputed, active, is_active,
  TxPhase-discrete, Transaction,
}
use bitwrk.Transaction.Handlers.{Runtime}
use bitwrk.Transaction.Messages.{
  PhaseTransition, Rule, phase_transition_rules, rule_fits, find_matching_rule,
  find_matching_phase_transition, deliver, follow, send_message,
}

-- The moves of the table `phaseTransitionRules`: who moves a transaction from which phase to which.
pub data Edge : Origin → TxPhase → TxPhase → Type 0 where
  announce_work : Edge from_buyer establishing buyer_established
  announce_work_late : Edge from_buyer seller_established transmitting
  announce_worker : Edge from_seller establishing seller_established
  announce_worker_late : Edge from_seller buyer_established transmitting
  start_early : Edge from_seller buyer_established working
  start : Edge from_seller transmitting working
  refuse_unsent : Edge from_seller seller_established work_disputed
  refuse_sent : Edge from_seller transmitting work_disputed
  give_up : Edge from_seller working work_disputed
  deliver_result : Edge from_seller working unverified
  dispute : Edge from_buyer unverified work_disputed
  accept :
      {p : TxPhase}
      → p ≢ finished
      → p ≢ work_disputed
      → p ≢ result_disputed
      → Edge from_buyer p finished

abbrev pub All {ℓ κ} : {A : Type ℓ} → (A → Type κ) → List A → Type κ
All P [] = Unit
All P (x ∷ xs) = P x × All P xs

abbrev pub Follows : Origin → PhaseTransition → Type 0
Follows o t = Edge o t.pre_phase t.post_phase

pub rules-Follows :
    (r : Runtime) → All (λ q. All (Follows q.from) q.transitions) (phase_transition_rules r)
unfolding phase_transition_rules
rules-Follows r = (
  (announce_work, (announce_work_late, tt)),
  (
    (announce_worker, (announce_worker_late, tt)),
    (
      (start_early, (start, tt)),
      (
        (refuse_unsent, (refuse_sent, (give_up, tt))),
        (
          (deliver_result, tt),
          (
            (dispute, tt),
            (
              (
                accept (λ e. cc) (λ e. cc) (λ e. cc),
                (
                  accept (λ e. cc) (λ e. cc) (λ e. cc),
                  (
                    accept (λ e. cc) (λ e. cc) (λ e. cc),
                    (
                      accept (λ e. cc) (λ e. cc) (λ e. cc),
                      (
                        accept (λ e. cc) (λ e. cc) (λ e. cc),
                        (accept (λ e. cc) (λ e. cc) (λ e. cc), tt),
                      ),
                    ),
                  ),
                ),
              ),
              tt,
            ),
          ),
        ),
      ),
    ),
  ),
)

-- What is found in the table satisfies what all of the table does, and fits.
pub find_rule-All {κ} :
    (P : Rule → Type κ) (tx : Transaction) (address : Str) (arguments : Dict Str) (rs : List Rule)
    (q : Rule)
    → All P rs
    → find_matching_rule tx address arguments rs ≡ some q
    → P q × (rule_fits tx address arguments q ≡ true)
unfolding find_matching_rule
find_rule-All P tx address arguments [] q h e = absurd (cc)
find_rule-All P tx address arguments (r ∷ rs) q (h, hs) e =
    elim (Bool-cases (rule_fits tx address arguments r)) [
      | inl fits ↦
          let e' : some r ≡ some q = rw fits at e in
          let same : r ≡ q = cc in (rw same at h, rw same at fits)
      | inr no_fit ↦ find_rule-All P tx address arguments rs q hs (rw no_fit at e)
    ]

pub find_transition-All {κ} :
    (P : PhaseTransition → Type κ) (p : TxPhase) (ts : List PhaseTransition) (t : PhaseTransition)
    → All P ts
    → find_matching_phase_transition p ts ≡ some t
    → P t × (t.pre_phase ≡ p)
unfolding find_matching_phase_transition
find_transition-All P p [] t h e = absurd (cc)
find_transition-All P p (x ∷ xs) t (h, hs) e =
    elim (TxPhase-discrete x.pre_phase p)
        as (λ d.
          (if elim d [ yes _ ↦ true | no _ ↦ false ]
              then some x
              else find_matching_phase_transition p xs)
            ≡ some t
          → P t × (t.pre_phase ≡ p)) [
            | yes same_phase ↦ λ k. let same : x ≡ t = cc in (rw same at h, rw same at same_phase)
            | no _ ↦ λ k. find_transition-All P p xs t hs k
          ]
      e

follow-none :
    (tx : Transaction) (now : ℕ) (arguments : Dict Str) (q : Rule)
    → find_matching_phase_transition tx.phase q.transitions ≡ none
    → ((follow tx now arguments q).0.accepted ≡ false) × ((follow tx now arguments q).1 ≡ tx)
unfolding follow
follow-none tx now arguments q e = rw (e, follow) (refl, refl)

follow-some :
    (tx : Transaction) (now : ℕ) (arguments : Dict Str) (q : Rule) (t : PhaseTransition)
    → find_matching_phase_transition tx.phase q.transitions ≡ some t
    → follow tx now arguments q ≡ deliver tx now arguments q t
unfolding follow
follow-some tx now arguments q t e = rw (e, follow)

-- A message that got as far as its handler: the rule and the transition that were found.
pub record Delivered (r : Runtime) (tx : Transaction) (now : ℕ) (address : Str)
    (arguments : Dict Str) : Type 0 where
  pub rule : Rule
  pub transition : PhaseTransition
  pub is_live : tx.state ≡ active
  pub in_time : now < tx.timeout
  pub found : find_matching_rule tx address arguments (phase_transition_rules r) ≡ some rule
  pub moves : find_matching_phase_transition tx.phase rule.transitions ≡ some transition
  pub delivered : send_message r tx now address arguments ≡ deliver tx now arguments rule transition

-- Whether a message gets as far as its handler; if not, it is rejected and nothing is written.
pub send_message-cases :
    (r : Runtime) (tx : Transaction) (now : ℕ) (address : Str) (arguments : Dict Str)
    → Delivered r tx now address arguments
      ⊎ (((send_message r tx now address arguments).0.accepted ≡ false)
          × ((send_message r tx now address arguments).1 ≡ tx))
unfolding send_message
send_message-cases r tx now address arguments =
    elim (Bool-cases (not (is_active tx.state) || not (ltb now tx.timeout))) [
      | inl dead ↦ inr (rw dead (refl, refl))
      | inr live ↦
          elim (Option-cases (find_matching_rule tx address arguments (phase_transition_rules r))) [
            | inl e ↦ inr (rw (live, e) (refl, refl))
            | inr (q, e) ↦
                elim (Option-cases (find_matching_phase_transition tx.phase q.transitions)) [
                  | inl f ↦ inr (rw (live, e) (follow-none tx now arguments q f))
                  | inr (t, f) ↦ inl (record {
                    rule = q;
                    transition = t;
                    is_live = ground arith;
                    in_time = ground arith;
                    found = e;
                    moves = f;
                    delivered = rw (live, e) (follow-some tx now arguments q t f);
                  })
                ]
          ]
    ]
