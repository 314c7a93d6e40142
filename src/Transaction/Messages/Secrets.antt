-- ===== src/Transaction/Messages/Secrets.antt =====
-- The proofs that the parties of a transaction of common/bitwrk/transaction.go exchange.
use bitwrk.Base.{
  ℕ, ◌≡◌, refl, sym, ap, ◌∙◌, inl, inr, true, Bool-cases, Option, none, some, List, ◌++◌, Str, Dict,
  Result, ok, err, panic, Action, bind, lift, arith,
}
use bitwrk.Int.{pos}
use bitwrk.Int64.{◌+64◌}
use bitwrk.Transaction.{
  TxPhase, establishing, buyer_established, seller_established, transmitting, working, unverified,
  phase_eq, Transaction, Receipt,
}
use bitwrk.Transaction.Handlers.{
  Runtime, must_verify_receipt, hex_encode, handle_worker_url, handle_work_hashes,
  handle_buyer_secret, handle_transmit_finished, check_secret, error_of, write_worker_url,
  write_hashes, write_secret_hash, verify_secret, write_secret, parse_receipt, verify_receipt,
  parse_result_key, receipt_of, write_result,
}
use bitwrk.Transaction.Messages.{
  PhaseTransition, ◌to◌, phase_transition_rules, arrive, advance, send_message,
}
use bitwrk.Transaction.Messages.Graph.{All, find_rule-All, find_transition-All, send_message-cases}
use bitwrk.Transaction.Messages.Runs.{Event, run, run-keeps, update_transaction-cases}
use bitwrk.Transaction.Messages.Effects.{accepted-ended, deliver-none, advance-Same, true≢false}

-- The exchanged data of a transaction.
pub record Dossier : Type 0 where
  pub buyer : Str
  pub worker_url : Option Str
  pub work_hash : Option Str
  pub work_secret_hash : Option Str
  pub buyer_secret : Option Str
  pub receipt : Option Receipt
  pub key : Option Str

abbrev pub dossier : Transaction → Dossier
dossier tx = record {
  buyer = tx.buyer;
  worker_url = tx.worker_url;
  work_hash = tx.work_hash;
  work_secret_hash = tx.work_secret_hash;
  buyer_secret = tx.buyer_secret;
  receipt = tx.encrypted_result_receipt;
  key = tx.result_decryption_key;
}

-- Inversion of a step that ends without an error.
no_error :
    {A : Type 0} (m : Result A) (f : A → Action Transaction (Unit {0})) (tx : Transaction)
    → error_of (bind (lift m) f tx).0 ≡ none
    → (a : A) × (m ≡ ok a) × (bind (lift m) f tx ≡ f a tx)
no_error (ok a) f tx e = (a, refl, refl)
no_error (err x) f tx e = absurd (cc)
no_error panic f tx e = absurd (cc)

panic≢ok : ◌≡◌ {A = Result (Unit {0})} panic (ok tt) → ⊥
panic≢ok h = cc

-- Arriving at a phase writes none of the data.
dossier-arrive : (p : TxPhase) (tx : Transaction) (now : ℕ) → dossier (arrive p tx now) ≡ dossier tx
unfolding arrive
dossier-arrive establishing tx now = refl
dossier-arrive _ tx now = refl

dossier-advance :
    (tx : Transaction) (pre post : TxPhase) (now : ℕ)
    → dossier (advance tx pre post now) ≡ dossier tx
unfolding advance
dossier-advance tx pre post now = elim (Bool-cases (phase_eq post pre)) [
  | inl e ↦ rw (e, advance)
  | inr e ↦
      rw (e, advance)
        (dossier-arrive post (record tx { phase = post; revision = tx.revision +64 pos 1 }) now)
]

module _ (r : Runtime) where
  -- The buyer has committed to the work and to a secret.
  abbrev pub HasHashes : Dossier → Type 0
  HasHashes d = (h : Str) × (s : Str) × (d.work_hash ≡ some h) × (d.work_secret_hash ≡ some s)

  abbrev pub HasUrl : Dossier → Type 0
  HasUrl d = (u : Str) × (d.worker_url ≡ some u)

  -- The seller has published the secret that the buyer committed to.
  abbrev pub HasSecret : Dossier → Type 0
  HasSecret d =
      (h : Str) × (b : Str) × (d.work_hash ≡ some h)
      × (d.buyer_secret ≡ some b)
      × (d.work_secret_hash ≡ some (r.sha256 (h ++ b)))

  -- The seller has published the decryption key, and a receipt that the buyer signed.
  abbrev pub HasReceipt : Dossier → Type 0
  HasReceipt d =
      (c : Receipt) × (k : Str) × (d.receipt ≡ some c)
      × (d.key ≡ some k)
      × (r.verify_signature (hex_encode c.hash) d.buyer (r.base64_encode c.hash_signature) ≡ true)

  abbrev pub Attests : TxPhase → Dossier → Type 0
  Attests buyer_established d = HasHashes d
  Attests seller_established d = HasUrl d
  Attests transmitting d = HasHashes d × HasUrl d
  Attests working d = HasSecret d
  Attests unverified d = HasSecret d × HasReceipt d
  Attests _ d = Unit

  -- A handler without error takes what one phase attests to what another does.
  abbrev Moves :
      (Dict Str → Transaction → Result (Unit {0}) × Transaction) → PhaseTransition → Type 0
  Moves handler t =
      (arguments : Dict Str) (tx : Transaction)
      → error_of (handler arguments tx).0 ≡ none
      → Attests t.pre_phase (dossier tx)
      → Attests t.post_phase (dossier (handler arguments tx).1)

  work_hashes-ok :
      (arguments : Dict Str) (tx : Transaction)
      → error_of (handle_work_hashes r arguments tx).0 ≡ none
      → (h : Str) × (s : Str) × ((handle_work_hashes r arguments tx).1
          ≡ record tx { work_hash = some h; work_secret_hash = some s })
  unfolding handle_work_hashes
  work_hashes-ok arguments tx e =
      let (h, _, e₁) = no_error _ (write_hashes r arguments) tx e in
      let (s, _, e₂) =
        no_error _ (write_secret_hash r) (record tx { work_hash = some h }) (rw e₁ at e) in
      (h, s, ap (λ x. x.1) (e₁ ∙ e₂))

  secret-ok :
      (arguments : Dict Str) (tx : Transaction)
      → error_of (handle_buyer_secret r arguments tx).0 ≡ none
      → (b : Str) × (check_secret r b tx.work_hash tx.work_secret_hash ≡ ok tt)
        × ((handle_buyer_secret r arguments tx).1 ≡ record tx { buyer_secret = some b })
  unfolding handle_buyer_secret
  secret-ok arguments tx e =
      let (b, _, e₁) = no_error _ (verify_secret r) tx e in
      let (u, c, e₂) = no_error _ (write_secret r b) tx (rw e₁ at e) in
      (b, c, ap (λ x. x.1) (e₁ ∙ e₂))

  result-ok :
      (arguments : Dict Str) (tx : Transaction)
      → error_of (handle_transmit_finished r arguments tx).0 ≡ none
      → (c : Receipt) × (k : Str) × (must_verify_receipt r c tx.buyer ≡ ok tt)
        × ((handle_transmit_finished r arguments tx).1
            ≡ record tx { result_decryption_key = some k; encrypted_result_receipt = some c })
  unfolding handle_transmit_finished
  result-ok arguments tx e =
      let (h, _, e₁) = no_error _ (parse_receipt r arguments) tx e in
      let (g, _, e₂) = no_error _ (verify_receipt r arguments h) tx (rw e₁ at e) in
      let c = receipt_of r h g in
      let (u, v, e₃) = no_error _ (parse_result_key r arguments c) tx (rw (e₁, e₂) at e) in
      let (k, _, e₄) = no_error _ (write_result r c) tx (rw (e₁, e₂, e₃) at e) in
      (c, k, v, ap (λ x. x.1) (e₁ ∙ e₂ ∙ e₃ ∙ e₄))

  url-ok :
      (arguments : Dict Str) (tx : Transaction)
      → error_of (handle_worker_url r arguments tx).0 ≡ none
      → (u : Str) × ((handle_worker_url r arguments tx).1 ≡ record tx { worker_url = some u })
  unfolding handle_worker_url
  url-ok arguments tx e =
      let (u, _, e₁) = no_error _ (write_worker_url r) tx e in (u, ap (λ x. x.1) e₁)

  check_secret-ok :
      (b h s : Str) → check_secret r b (some h) (some s) ≡ ok tt → s ≡ r.sha256 (h ++ b)
  check_secret-ok b h s e = ground arith

  receipt-ok :
      (c : Receipt) (buyer : Str)
      → must_verify_receipt r c buyer ≡ ok tt
      → r.verify_signature (hex_encode c.hash) buyer (r.base64_encode c.hash_signature) ≡ true
  unfolding must_verify_receipt
  receipt-ok c buyer e =
      elim (Bool-cases
        (r.verify_signature (hex_encode c.hash) buyer (r.base64_encode c.hash_signature))) [
          | inl y ↦ y
          | inr n ↦ absurd (panic≢ok (rw (n, must_verify_receipt) at e))
        ]

  hashes-Moves :
      Moves (handle_work_hashes r) (establishing to buyer_established)
      × Moves (handle_work_hashes r) (seller_established to transmitting)
  hashes-Moves = (
    λ arguments tx e a. let (h, s, eq) = work_hashes-ok arguments tx e in rw eq (h, s, refl, refl),
    λ arguments tx e a.
        let (h, s, eq) = work_hashes-ok arguments tx e in rw eq ((h, s, refl, refl), a),
  )

  url-Moves :
      Moves (handle_worker_url r) (establishing to seller_established)
      × Moves (handle_worker_url r) (buyer_established to transmitting)
  url-Moves = (
    λ arguments tx e a. let (u, eq) = url-ok arguments tx e in rw eq (u, refl),
    λ arguments tx e a. let (u, eq) = url-ok arguments tx e in rw eq (a, (u, refl)),
  )

  HasSecret-published :
      (arguments : Dict Str) (tx : Transaction)
      → error_of (handle_buyer_secret r arguments tx).0 ≡ none
      → HasHashes (dossier tx)
      → HasSecret (dossier (handle_buyer_secret r arguments tx).1)
  HasSecret-published arguments tx e (h, s, eh, es) =
      let (b, c, eq) = secret-ok arguments tx e in
      let c' : check_secret r b (some h) (some s) ≡ ok tt = rw (eh, es) at c in
      rw eq (h, b, eh, refl, es ∙ ap some (check_secret-ok b h s c'))

  HasReceipt-published :
      (arguments : Dict Str) (tx : Transaction)
      → error_of (handle_transmit_finished r arguments tx).0 ≡ none
      → HasSecret (dossier tx)
      → HasSecret (dossier (handle_transmit_finished r arguments tx).1)
        × HasReceipt (dossier (handle_transmit_finished r arguments tx).1)
  HasReceipt-published arguments tx e a =
      let (c, k, v, eq) = result-ok arguments tx e in
      rw eq (a, (c, k, refl, refl, receipt-ok c tx.buyer v))

  rules-Moves : All (λ q. All (Moves q.handler) q.transitions) (phase_transition_rules r)
  unfolding phase_transition_rules
  rules-Moves = (
    (hashes-Moves.0, (hashes-Moves.1, tt)),
    (
      (url-Moves.0, (url-Moves.1, tt)),
      (
        (
          λ arguments tx e a. HasSecret-published arguments tx e a,
          (λ arguments tx e a. HasSecret-published arguments tx e a.0, tt),
        ),
        (
          (λ arguments tx e a. tt, (λ arguments tx e a. tt, (λ arguments tx e a. tt, tt))),
          (
            (HasReceipt-published, tt),
            (
              (λ arguments tx e a. tt, tt),
              (
                (
                  λ arguments tx e a. tt,
                  (
                    λ arguments tx e a. tt,
                    (
                      λ arguments tx e a. tt,
                      (
                        λ arguments tx e a. tt,
                        (λ arguments tx e a. tt, (λ arguments tx e a. tt, tt)),
                      ),
                    ),
                  ),
                ),
                tt,
              ),
            ),
          ),
        ),
      ),
    ),
  )

  -- A message that is accepted keeps the phase's attestation true.
  send_message-Attests :
      (tx : Transaction) (now : ℕ) (address : Str) (arguments : Dict Str)
      → (send_message r tx now address arguments).0.accepted ≡ true
      → Attests tx.phase (dossier tx)
      → let tx' = (send_message r tx now address arguments).1 in Attests tx'.phase (dossier tx')
  send_message-Attests tx now address arguments h a =
      elim (send_message-cases r tx now address arguments) [
        | inl v ↦
            let q = v.rule in
            let t = v.transition in
            let ended = accepted-ended tx now arguments q t (rw v.delivered at h) in
            let (moves, _) =
              find_rule-All (λ q. All (Moves q.handler) q.transitions) tx address arguments
                (phase_transition_rules r) q rules-Moves v.found in
            let (move, pre) =
              find_transition-All (Moves q.handler) tx.phase q.transitions t moves v.moves in
            let tx₁ = (q.handler arguments tx).1 in
            rw (v.delivered, deliver-none tx now arguments q t ended)
              (rw
                (
                  (advance-Same tx₁ tx.phase t.post_phase now).0,
                  dossier-advance tx₁ tx.phase t.post_phase now,
                )
                (move arguments tx ended (rw pre a)))
        | inr (rejected, _) ↦ absurd (true≢false (sym h ∙ rejected))
      ]

  -- In a transaction that began in ESTABLISHING, whatever messages came: in BUYER_ESTABLISHED the
  -- buyer's hashes are known, in SELLER_ESTABLISHED the worker's URL, in TRANSMITTING both; in WORKING and UNVERIFIED the published secret hashes,
  -- together with the work hash, to the buyer's commitment; and in UNVERIFIED there is a decryption
  -- key and a receipt for the result that verifies with the buyer's signature.
  pub run-Attests :
      (tx : Transaction) (es : List Event)
      → tx.phase ≡ establishing
      → let tx' = (run r tx es).1 in Attests tx'.phase (dossier tx')
  run-Attests tx es h =
      run-keeps (λ t. Attests t.phase (dossier t)) r tx es
        (λ t e a. elim (update_transaction-cases r t e) [
          | inl (y, same, _) ↦ rw same (send_message-Attests t e.now e.address e.arguments y a)
          | inr (_, same) ↦ rw same a
        ])
        (rw h tt)
