-- ===== src/Transaction/Handlers.antt =====
-- The handlers of the messages, in common/bitwrk/transaction.go: what a message writes into the
-- transaction. A handler that panics may leave the transaction partly written.
use bitwrk.Base.{
  ℕ, ◌+◌, ◌-◌, ◌*◌, ◌/◌, ◌%◌, Bool, false, not, ◌&&◌, ◌||◌, Option, none, some, [], ◌∷◌, ◌++◌, Str,
  codes, str_eq, length, is_digit, all_bytes, leb, ltb, ◌==◌, Dict, lookup, if◌then◌else◌, Error,
  Result, ok, err, panic, Action, bind, lift, aborted, inconsistent_secret,
}
use bitwrk.Transaction.{Transaction, Receipt}

-- The parts of Go's library and of the signature check that the handlers call.
pub record Runtime : Type 0 where
  -- whether `url.ParseRequestURI` accepts a string
  pub parse_request_uri : Str → Bool
  -- `base64.StdEncoding`; `none` on a decoding error
  pub base64_decode : Str → Option Str
  pub base64_encode : Str → Str
  -- the 32 bytes of `sha256`
  pub sha256 : Str → Str
  -- whether `bitcoin.VerifySignatureBase64` accepts a document, an address and a signature
  pub verify_signature : Str → Str → Str → Bool

-- `arguments[name]`: the empty string if the argument is missing.
unfoldable pub argument : Dict Str → Str → Str
unfolding lookup
argument arguments name = elim (lookup name arguments) [ some v ↦ v | none ↦ [] ]

abbrev drop_prefix : Str → Str → Option Str
drop_prefix [] s = some s
drop_prefix (c ∷ p) [] = none
drop_prefix (c ∷ p) (a ∷ s) = if c == a then drop_prefix p s else none

-- `^http://.*$`, where `.` matches all but a newline.
unfoldable pub matches_worker_url : Str → Bool
unfolding all_bytes
matches_worker_url s = elim (drop_prefix (codes "http://") s) [
  | none ↦ false
  | some rest ↦ all_bytes (λ c. not (c == 10)) rest
]

abbrev pub is_hex_digit : ℕ → Bool
is_hex_digit c = is_digit c || leb b'a' c && leb c b'f'

-- `^[0-9a-f]{64}$`
unfoldable pub matches_hash : Str → Bool
unfolding all_bytes
matches_hash s = length s == 64 && all_bytes is_hex_digit s

abbrev pub hex_value : ℕ → ℕ
hex_value c = if is_digit c then c - b'0' else c - b'a' + 10

-- `hex.Decode` of lower-case digits.
unfoldable pub hex_decode : Str → Str
hex_decode [] = []
hex_decode (a ∷ []) = []
hex_decode (a ∷ b ∷ s) = (hex_value a * 16 + hex_value b) ∷ hex_decode s

unfoldable pub must_parse_hash : Str → Result Str
unfolding matches_hash hex_decode
must_parse_hash s = if matches_hash s then ok (hex_decode s) else panic

abbrev pub lower_hex : ℕ → ℕ
lower_hex n = if ltb n 10 then b'0' + n else b'a' + (n - 10)

-- `hex.EncodeToString`
unfoldable pub hex_encode : Str → Str
hex_encode [] = []
hex_encode (c ∷ s) = lower_hex (c / 16) ∷ lower_hex (c % 16) ∷ hex_encode s

-- The error that `safeCall` returns: a panic becomes one.
abbrev pub error_of : Result (Unit {0}) → Option Error
error_of (ok u) = none
error_of (err e) = some e
error_of panic = some aborted

unfoldable pub safe_call :
    (Transaction → Result (Unit {0}) × Transaction) → Transaction → Option Error × Transaction
safe_call handler tx = let (result, tx') = handler tx in (error_of result, tx')

module _ (r : Runtime) where
  unfoldable pub must_parse_worker_url : Str → Result Str
  unfolding matches_worker_url
  must_parse_worker_url s = if matches_worker_url s && r.parse_request_uri s then ok s else panic

  unfoldable pub must_parse_signature : Str → Result Str
  must_parse_signature s = elim (r.base64_decode s) [
    | none ↦ panic
    | some signature ↦ if length signature == 65 then ok signature else panic
  ]

  unfoldable pub must_verify_receipt : Receipt → Str → Result (Unit {0})
  unfolding hex_encode
  must_verify_receipt receipt address =
      if r.verify_signature (hex_encode receipt.hash) address
        (r.base64_encode receipt.hash_signature)
      then ok tt
      else panic

  -- Each handler is a chain of steps; a step that writes is a function of its own.
  abbrev pub write_worker_url : Str → Action Transaction (Unit {0})
  write_worker_url url tx = (ok tt, record tx { worker_url = some url })

  unfoldable pub handle_worker_url : Dict Str → Action Transaction (Unit {0})
  unfolding argument must_parse_worker_url
  handle_worker_url arguments =
      bind (lift (must_parse_worker_url (argument arguments (codes "workerurl")))) write_worker_url

  abbrev pub write_secret_hash : Str → Action Transaction (Unit {0})
  write_secret_hash secret_hash tx = (ok tt, record tx { work_secret_hash = some secret_hash })

  abbrev pub write_hashes : Dict Str → Str → Action Transaction (Unit {0})
  write_hashes arguments hash tx =
      bind (lift (must_parse_hash (argument arguments (codes "worksecrethash")))) write_secret_hash
        (record tx { work_hash = some hash })

  unfoldable pub handle_work_hashes : Dict Str → Action Transaction (Unit {0})
  unfolding argument must_parse_hash
  handle_work_hashes arguments =
      bind (lift (must_parse_hash (argument arguments (codes "workhash")))) (write_hashes arguments)

  -- The nil pointers `tx.WorkHash` and `tx.WorkSecretHash` are followed, and may panic.
  abbrev pub check_secret : Str → Option Str → Option Str → Result (Unit {0})
  check_secret secret (some hash) (some secret_hash) =
      if str_eq (r.sha256 (hash ++ secret)) secret_hash then ok tt else err inconsistent_secret
  check_secret secret _ _ = panic

  abbrev pub write_secret : Str → Unit {0} → Action Transaction (Unit {0})
  write_secret secret _ tx = (ok tt, record tx { buyer_secret = some secret })

  abbrev pub verify_secret : Str → Action Transaction (Unit {0})
  verify_secret secret tx =
      bind (lift (check_secret secret tx.work_hash tx.work_secret_hash)) (write_secret secret) tx

  unfoldable pub handle_buyer_secret : Dict Str → Action Transaction (Unit {0})
  unfolding argument must_parse_hash
  handle_buyer_secret arguments =
      bind (lift (must_parse_hash (argument arguments (codes "buyersecret")))) verify_secret

  abbrev pub write_result : Receipt → Str → Action Transaction (Unit {0})
  write_result receipt key tx = (
    ok tt,
    record tx { result_decryption_key = some key; encrypted_result_receipt = some receipt },
  )

  abbrev pub parse_result_key : Dict Str → Receipt → Unit {0} → Action Transaction (Unit {0})
  parse_result_key arguments receipt _ =
      bind (lift (must_parse_hash (argument arguments (codes "encresultkey"))))
        (write_result receipt)

  abbrev pub receipt_of : Str → Str → Receipt
  receipt_of hash signature = record { hash = hash; hash_signature = signature }

  abbrev pub verify_receipt : Dict Str → Str → Str → Action Transaction (Unit {0})
  verify_receipt arguments hash signature tx =
      bind (lift (must_verify_receipt (receipt_of hash signature) tx.buyer))
        (parse_result_key arguments (receipt_of hash signature)) tx

  abbrev pub parse_receipt : Dict Str → Str → Action Transaction (Unit {0})
  parse_receipt arguments hash =
      bind (lift (must_parse_signature (argument arguments (codes "encresulthashsig"))))
        (verify_receipt arguments hash)

  unfoldable pub handle_transmit_finished : Dict Str → Action Transaction (Unit {0})
  unfolding argument must_parse_hash must_parse_signature must_verify_receipt
  handle_transmit_finished arguments =
      bind (lift (must_parse_hash (argument arguments (codes "encresulthash"))))
        (parse_receipt arguments)
