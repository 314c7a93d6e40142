-- ===== src/Tests/Shelf.antt =====
-- A storage of accounts in a map, for the tests: it keeps accounts and forgets movements.
use bitwrk.Base.{
  ◌≡◌, refl, sym, ap, ◌∙◌, Bool-cases, Option, none, some, Str, str_eq, str_eq_iff, Dict, lookup,
  insert, lookup-insert, if◌then◌else◌, inl, inr, Result, ok, ok-injective, err, no_such_object,
}
use bitwrk.Dao.{ParticipantAccount, Dao}
use bitwrk.Dao.Cached.Reads.{Storage}

abbrev pub Shelf : Type 0
Shelf = Dict ParticipantAccount

-- An account bears the name that it stands under.
abbrev pub named : Str → Option ParticipantAccount → Option ParticipantAccount
named p none = none
named p (some a) = some (record a { participant = p })

abbrev pub found_or_missing : Option ParticipantAccount → Result ParticipantAccount
found_or_missing none = err no_such_object
found_or_missing (some a) = ok a

abbrev pub shelf : Dao
shelf = record {
  State = Shelf;
  get_account = λ p s. (found_or_missing (named p (lookup p s)), s);
  save_account = λ a s. (ok tt, insert a.participant a s);
  get_movement = λ k s. (err no_such_object, s);
  save_movement = λ m s. (ok tt, s);
  new_account_movement_key = λ p s. (ok p, s);
  get_deposit = λ u s. (err no_such_object, s);
  save_deposit = λ u x s. (ok tt, s);
  get_relation = λ a b t s. (err no_such_object, s);
  save_relation = λ x s. (ok tt, s);
}

pub find_named :
    (p : Str) (o : Option ParticipantAccount) (a : ParticipantAccount)
    → named p o ≡ some a
    → a.participant ≡ p
find_named p none a h = absurd (cc)
find_named p (some b) a h =
    let same : record b { participant = p } ≡ a = cc in ap (λ x. x.participant) (sym same)

pub found_named :
    (o : Option ParticipantAccount) (a : ParticipantAccount)
    → found_or_missing o ≡ ok a
    → o ≡ some a
found_named none a h = absurd (cc)
found_named (some b) a h = ap some (ok-injective h)

pub missing_named :
    (o : Option ParticipantAccount) → found_or_missing o ≡ err no_such_object → o ≡ none
missing_named none h = refl
missing_named (some b) h = absurd (cc)

pub named-if :
    (q : Str) (a : ParticipantAccount) (o : Option ParticipantAccount)
    → named q (if str_eq q a.participant then some a else o)
      ≡ (if str_eq q a.participant then some a else named q o)
named-if q a o = elim (Bool-cases (str_eq q a.participant)) [
  | inl y ↦
      let same : q ≡ a.participant = (str_eq_iff q a.participant).0 y in
      rw y (ap (λ p. some (record a { participant = p })) same)
  | inr n ↦ rw n refl
]

abbrev pub shelf_storage : Storage shelf
shelf_storage = record {
  find = λ s p. named p (lookup p s);
  find-participant = λ s p a h. find_named p (lookup p s) a h;
  found = λ p s t a h. found_named (named p (lookup p s)) a (ap (λ x. x.0) h);
  missing = λ p s t h. missing_named (named p (lookup p s)) (ap (λ x. x.0) h);
  reads_account = λ p q s. refl;
  reads_deposit = λ u q s. refl;
  makes_key = λ p q s. refl;
  saves_account = λ a q s t h.
      ap (λ y. named q (lookup q y.1)) (sym h)
      ∙ ap (named q) (lookup-insert q a.participant a s)
      ∙ named-if q a (lookup q s);
  saves_deposit = λ u q x s. refl;
  saves_movement = λ m q s. refl;
}
