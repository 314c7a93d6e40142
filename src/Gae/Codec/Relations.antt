-- ===== src/Gae/Codec/Relations.antt =====
-- `relationCodec` of server/gae/gae_codec.go.
use bitwrk.Base.{
  ◌≡◌, refl, List, [], ◌∷◌, Str-discrete, codes, str_eq, if◌then◌else◌, Result, ok, err, ◌>>=◌,
  unknown_property,
}
use bitwrk.Dao.{Relation}
use bitwrk.Gae.Store.{
  Keys, Property, int_value, string_value, time_value, bool_value, indexed, unindexed, as_int,
  as_string, as_time, as_bool, load_all,
}
use bitwrk.Gae.Codec.Numbers.{relation_type_number, relation_type_of, relation_type_of-number}

module _ (K : Keys) where
  -- The `switch` of `Load`.
  unfoldable pub load_relation_property : Property K → Relation → Result Relation
  unfolding relation_type_of
  load_relation_property p x =
      if str_eq p.name (codes "Source")
      then (do s ← as_string K p.value; ok (record x { source = s }))
      else if str_eq p.name (codes "Target")
      then (do s ← as_string K p.value; ok (record x { target = s }))
      else if str_eq p.name (codes "Enabled")
      then (do b ← as_bool K p.value; ok (record x { enabled = b }))
      else if str_eq p.name (codes "LastModified")
      then (do t ← as_time K p.value; ok (record x { last_modified = t }))
      else if str_eq p.name (codes "Document")
      then (do s ← as_string K p.value; ok (record x { document = s }))
      else if str_eq p.name (codes "Signature")
      then (do s ← as_string K p.value; ok (record x { signature = s }))
      else if str_eq p.name (codes "Type")
      then (do n ← as_int K p.value; t ← relation_type_of n; ok (record x { relation_type = t }))
      else err unknown_property

  -- `Load`
  unfoldable pub load_relation : List (Property K) → Relation → Result Relation
  unfolding load_relation_property load_all
  load_relation ps x = load_all K load_relation_property ps x

  -- `Save`
  unfoldable pub save_relation_properties : Relation → List (Property K)
  unfolding relation_type_number
  save_relation_properties x =
      indexed K (codes "Source") (string_value x.source)
      ∷ indexed K (codes "Target") (string_value x.target)
      ∷ indexed K (codes "Enabled") (bool_value x.enabled)
      ∷ indexed K (codes "LastModified") (time_value x.last_modified)
      ∷ unindexed K (codes "Document") (string_value x.document)
      ∷ unindexed K (codes "Signature") (string_value x.signature)
      ∷ indexed K (codes "Type") (int_value (relation_type_number x.relation_type))
      ∷ []

  -- A relation is loaded as it was saved, whatever the record held before.
  pub load_relation-save :
      (x old : Relation) → load_relation (save_relation_properties x) old ≡ ok x
  unfolding load_relation save_relation_properties load_all load_relation_property Str-discrete
  load_relation-save x old = rw (relation_type_of-number x.relation_type) refl
