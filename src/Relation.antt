-- ===== src/Relation.antt =====
-- common/bitwrk/relation.go: how relations are parsed. `Relation` itself is in Dao.
use bitwrk.Base.{
  ℕ, ◌≡◌, refl, not, ◌||◌, none, some, [], ◌∷◌, ◌++◌, Str, Str-discrete, codes, str_eq, reverse,
  if◌then◌else◌, Result, ok, err, ◌>>=◌, ◌>>◌, ensure, no_such_relation_type, no_reflexive,
  no_boolean, bad_relation_json,
}
use bitwrk.Money.Parse.{unquote}
use bitwrk.Query.{normalize, query}
use bitwrk.Dao.{Relation, RelationType, trusts, works_for}

unfoldable pub parse_relation_type : Str → Result RelationType
parse_relation_type s =
    if str_eq s (codes "trusts")
    then ok trusts
    else if str_eq s (codes "worksfor")
    then ok works_for
    else err no_such_relation_type

unfoldable pub relation_type_string : RelationType → Str
relation_type_string trusts = codes "trusts"
relation_type_string works_for = codes "worksfor"

unfoldable pub marshal_relation_type : RelationType → Str
unfolding relation_type_string
marshal_relation_type t = codes "\"" ++ (relation_type_string t ++ codes "\"")

unfoldable pub unmarshal_relation_type : Str → Result RelationType
unfolding parse_relation_type unquote
unmarshal_relation_type b = elim (unquote b) [
  | none ↦ err bad_relation_json
  | some s ↦ parse_relation_type s
]

-- `ParseRelation`, at the time `now`.
unfoldable pub parse_relation : ℕ → Str → Str → Str → Str → Str → Str → Result Relation
unfolding parse_relation_type normalize query
parse_relation now enabled nonce source target reltype signature = do
  ensure (str_eq enabled (codes "true") || str_eq enabled (codes "false")) no_boolean
  rtype ← parse_relation_type reltype
  ensure (not (str_eq source target)) no_reflexive
  ok (record {
    source = source;
    target = target;
    relation_type = rtype;
    enabled = str_eq enabled (codes "true");
    document = query (
        (codes "enabled", normalize enabled)
        ∷ (codes "nonce", normalize nonce)
        ∷ (codes "source", normalize source)
        ∷ (codes "target", normalize target)
        ∷ (codes "type", normalize reltype)
        ∷ []);
    signature = signature;
    last_modified = now;
  })

-- The JSON of a type of relation is read back as that type.
pub unmarshal_relation_type-marshal :
    (t : RelationType) → unmarshal_relation_type (marshal_relation_type t) ≡ ok t
unfolding unmarshal_relation_type marshal_relation_type Str-discrete reverse
unmarshal_relation_type-marshal trusts = refl
unmarshal_relation_type-marshal works_for = refl
