-- ===== src/Gae/Codec/Movements/Whole.antt =====
-- About loading what `movementCodec` of server/gae/gae_codec.go saves, for whole movements.
use mathlib.Core.Path.{subst}
use bitwrk.Base.{
  ◌≡◌, sym, ap, ◌∙◌, Bool-cases, inl, inr, Option, none, List, [], ◌++◌, codes, str_eq, ok, ◌>>=◌,
}
use bitwrk.Money.{btc, money}
use bitwrk.Dao.{AccountMovement}
use bitwrk.Dao.Cached.{zero_movement}
use bitwrk.Gae.Store.{
  Keys, IsHonest, encoded, Property, indexed, unindexed, load_all, load_all-then,
}
use bitwrk.Gae.Codec.Numbers.{IsKnown}
use bitwrk.Gae.Codec.Movements.{
  load_movement_currency, within_one_account, complete, load_movement_property, load_movement,
  movement_head, currency_property, available_properties, blocked_delta_property,
  blocked_account_property, fee_properties, deposit_property, save_movement_properties,
}
use bitwrk.Gae.Codec.Movements.Loaded.{
  stored_form, KeepsNames, key_list, key_property-encoded, load-head, load-currency, load-available,
  load-available_key, load-blocked_delta, load-blocked, load-fee, load-bid, load-tx, load-deposit,
}

module _ (K : Keys) (ka kb kbid ktx : Option K.Key) where
  -- A movement in one currency that has no key of its own and no withdrawal, and whose other keys
  -- are the strings of these.
  abbrev pub uniform : AccountMovement → AccountMovement
  uniform m =
      let c = m.available_delta.currency in
      record m {
        key = none;
        blocked_delta = money m.blocked_delta.amount c;
        fee = money m.fee.amount c;
        world = money m.world.amount c;
        available_predecessor_key = encoded K ka;
        blocked_predecessor_key = encoded K kb;
        bid_key = encoded K kbid;
        tx_key = encoded K ktx;
        withdrawal_key = none;
      }

  -- The lists that `Save` writes before and after those of a blocked account.
  abbrev first_part : AccountMovement → List (Property K) → List (Property K)
  first_part m rest =
      movement_head K m
      ++ (currency_property K m.available_delta.currency
          ++ (available_properties K m
              ++ (key_list K (indexed K (codes "AvailablePredecessorKey")) ka
                  ++ (blocked_delta_property K m ++ rest))))

  abbrev last_part : AccountMovement → List (Property K)
  last_part m =
      fee_properties K m
      ++ (key_list K (unindexed K (codes "BidKey")) kbid
          ++ (key_list K (unindexed K (codes "TxKey")) ktx
              ++ (deposit_property K m.deposit_key ++ [])))

  -- What has been loaded before the properties of a blocked account, and after the others.
  abbrev first_loaded : AccountMovement → AccountMovement
  first_loaded m =
      let c = m.available_delta.currency in
      record m {
        key = none;
        blocked_delta = money m.blocked_delta.amount c;
        fee = money zero_movement.fee.amount c;
        world = money zero_movement.world.amount c;
        available_predecessor_key = encoded K ka;
        blocked_account = [];
        blocked_predecessor_key = none;
        bid_key = none;
        tx_key = none;
        deposit_key = none;
        withdrawal_key = none;
      }

  load-first_part :
      (m : AccountMovement) (rest : List (Property K))
      → IsKnown m.available_delta.currency
      → load_all K
          (load_movement_property K)
          (first_part m rest)
          (load_movement_currency btc zero_movement)
        ≡ load_all K (load_movement_property K) rest (first_loaded m)
  load-first_part m rest known =
      let f = load_movement_property K in
      let c = m.available_delta.currency in
      let a₁ = record zero_movement { timestamp = m.timestamp; movement_type = m.movement_type } in
      let a₂ = load_movement_currency c a₁ in
      let a₃ = record a₂ {
        available_delta = m.available_delta;
        available_account = m.available_account;
      } in
      let a₄ = record a₃ { available_predecessor_key = encoded K ka } in
      load_all-then K f (movement_head K m) _ zero_movement (load-head K m zero_movement)
      ∙ load_all-then K f (currency_property K c) _ a₁ (load-currency K c a₁ known)
      ∙ load_all-then K f (available_properties K m) _ a₂ (load-available K m a₂)
      ∙ load_all-then K f (key_list K (indexed K (codes "AvailablePredecessorKey")) ka) _ a₃
          (load-available_key K ka a₃)
      ∙ load_all-then K f (blocked_delta_property K m) _ a₄ (load-blocked_delta K m a₄)

  load-last_part :
      (m a : AccountMovement)
      → KeepsNames K
      → load_all K
          (load_movement_property K)
          (last_part m)
          (record a { bid_key = none; tx_key = none; deposit_key = none })
        ≡ ok (record a {
          fee = money m.fee.amount a.fee.currency;
          world = money m.world.amount a.world.currency;
          bid_key = encoded K kbid;
          tx_key = encoded K ktx;
          deposit_key = m.deposit_key;
        })
  load-last_part m a names =
      let f = load_movement_property K in
      let a₁ = record a { bid_key = none; tx_key = none; deposit_key = none } in
      let a₂ = record a₁ {
        fee = money m.fee.amount a.fee.currency;
        world = money m.world.amount a.world.currency;
      } in
      let a₃ = record a₂ { bid_key = encoded K kbid } in
      let a₄ = record a₃ { tx_key = encoded K ktx } in
      load_all-then K f (fee_properties K m) _ a₁ (load-fee K m a₁)
      ∙ load_all-then K f (key_list K (unindexed K (codes "BidKey")) kbid) _ a₂ (load-bid K kbid a₂)
      ∙ load_all-then K f (key_list K (unindexed K (codes "TxKey")) ktx) _ a₃ (load-tx K ktx a₃)
      ∙ load-deposit K m.deposit_key a₄ names

  -- A movement within one account, and another one.
  load-same :
      (m : AccountMovement)
      → KeepsNames K
      → IsKnown m.available_delta.currency
      → load_movement K (first_part m (last_part m)) zero_movement
        ≡ ok (within_one_account (uniform m))
  unfolding load_movement
  load-same m names known =
      let a = record (first_loaded m) { blocked_delta = (uniform m).blocked_delta } in
      ap (λ r. r >>= λ x. ok (complete x))
        (load-first_part m (last_part m) known ∙ load-last_part m a names)

  load-other :
      (m : AccountMovement)
      → KeepsNames K
      → IsKnown m.available_delta.currency
      → load_movement K
          (first_part m (
            (blocked_account_property K m
              ++ key_list K (unindexed K (codes "BlockedPredecessorKey")) kb)
            ++ last_part m))
          zero_movement
        ≡ ok (complete (uniform m))
  unfolding load_movement
  load-other m names known =
      let blocked =
        blocked_account_property K m
        ++ key_list K (unindexed K (codes "BlockedPredecessorKey")) kb in
      let a = record (first_loaded m) {
        blocked_account = m.blocked_account;
        blocked_predecessor_key = encoded K kb;
      } in
      ap (λ r. r >>= λ x. ok (complete x))
        (load-first_part m (blocked ++ last_part m) known
          ∙ load_all-then K (load_movement_property K) blocked _ (first_loaded m)
              (load-blocked K m (first_loaded m) kb)
          ∙ load-last_part m a names)

  -- If keys are read back as they were written and keep their names, then a movement in one known
  -- currency, with no key of its own and no withdrawal, and with strings of keys as its
  -- predecessors, bid and transaction, is saved, and loaded as the same movement; only a movement
  -- whose blocked account is its available account, or empty, is loaded with the available account
  -- and the available predecessor in the place of the blocked ones.
  pub load_movement-save :
      (m : AccountMovement)
      → IsHonest K
      → KeepsNames K
      → IsKnown m.available_delta.currency
      → m ≡ uniform m
      → (save_movement_properties K m >>= λ ps. load_movement K ps zero_movement)
        ≡ ok (stored_form m)
  unfolding save_movement_properties load_movement
  load_movement-save m honest names known shape =
      subst
        (λ x.
          (save_movement_properties K x >>= λ ps. load_movement K ps zero_movement)
          ≡ ok (stored_form x))
        (sym shape)
        (rw
          (
            key_property-encoded K (indexed K (codes "AvailablePredecessorKey")) ka honest,
            key_property-encoded K (unindexed K (codes "BlockedPredecessorKey")) kb honest,
            key_property-encoded K (unindexed K (codes "BidKey")) kbid honest,
            key_property-encoded K (unindexed K (codes "TxKey")) ktx honest,
          )
          (elim (Bool-cases (str_eq m.blocked_account m.available_account)) [
            | inl same ↦ rw same (load-same m names known)
            | inr other ↦ rw other (load-other m names known)
          ]))
