-- ===== src/Money.antt =====
-- common/money/money.go: currencies, units, amounts and their arithmetic. Parsing is in Money/Parse,
-- formatting in Money/Format. A Go `int` that is none of the five constants is `other_currency n`.
pub mod Arithmetic
pub mod Parse
pub mod Format
use bitwrk.Base.{
  ℕ, ◌≡◌, Bool, true, false, Option, none, some, List, [], ◌∷◌, ◌++◌, Str, codes, str_eq, decimal,
  ◌==◌, if◌then◌else◌, Dict, lookup, insert, Result, ok, err, panic, unknown_currency, unknown_unit,
  ℕ_discrete,
}
use bitwrk.Int.{ℤ, pos, ltb_ℤ}
use bitwrk.Int64.{◌+64◌, ◌-64◌, neg64}

pub data Currency : Type 0 where
  btc eur usd brl gbp : Currency
  other_currency : ℕ → Currency

unfoldable pub Currency-discrete : Discrete Currency
unfolding ℕ_discrete
Currency-discrete = hlevel ℕ_discrete

abbrev pub currency_eq : Currency → Currency → Bool
currency_eq c d = elim (Currency-discrete c d) [ yes _ ↦ true | no _ ↦ false ]

unfoldable pub currency_string : Currency → Str
unfolding decimal
currency_string btc = codes "BTC"
currency_string eur = codes "EUR"
currency_string usd = codes "USD"
currency_string brl = codes "BRL"
currency_string gbp = codes "GBP"
currency_string (other_currency n) = codes "<unknown Currency:" ++ (decimal n ++ codes ">")

unfoldable pub parse_currency : Str → Result Currency
parse_currency s =
    if str_eq s (codes "BTC")
    then ok btc
    else if str_eq s (codes "EUR")
    then ok eur
    else if str_eq s (codes "USD")
    then ok usd
    else if str_eq s (codes "BRL")
    then ok brl
    else if str_eq s (codes "GBP")
    then ok gbp
    else err unknown_currency

-- `Unit` in the source.
pub record MoneyUnit : Type 0 where
  pub symbol : Str
  pub currency : Currency
  pub factor : ℕ
  pub selectable : Bool

abbrev pub unit : Str → Currency → ℕ → Bool → MoneyUnit
unit s c f b = record { symbol = s; currency = c; factor = f; selectable = b }

-- The symbols beyond ASCII are written by their bytes in UTF-8.
abbrev pub euro_sign : Str
euro_sign = 0xe2 ∷ 0x82 ∷ 0xac ∷ []

abbrev pub pound_sign : Str
pound_sign = 0xc2 ∷ 0xa3 ∷ []

unfoldable pub units : List MoneyUnit
units =
    unit (codes "BTC") btc 100_000_000 true
    ∷ unit (codes "mBTC") btc 100_000 true
    ∷ unit (codes "uBTC") btc 100 true
    ∷ unit (codes "satoshi") btc 1 false
    ∷ unit (codes "EUR") eur 1_000_000_000 true
    ∷ unit euro_sign eur 1_000_000_000 false
    ∷ unit (codes "USD") usd 1_000_000_000 true
    ∷ unit (codes "$") usd 1_000_000_000 false
    ∷ unit (codes "BRL") brl 1_000_000_000 true
    ∷ unit (codes "R$") brl 1_000_000_000 false
    ∷ unit (codes "GBP") gbp 1_000_000_000 true
    ∷ unit pound_sign gbp 1_000_000_000 false
    ∷ []

-- The two maps that `init` fills, in the order of the table.
unfoldable pub index_by_symbol : List MoneyUnit → Dict MoneyUnit → Dict MoneyUnit
index_by_symbol [] d = d
index_by_symbol (u ∷ us) d = index_by_symbol us (insert u.symbol u d)

unfoldable pub units_by_symbol : Str → Option MoneyUnit
unfolding units index_by_symbol lookup insert
units_by_symbol s = lookup s (index_by_symbol units [])

unfoldable pub of_currency : Currency → List MoneyUnit → List MoneyUnit
of_currency c [] = []
of_currency c (u ∷ us) =
    let rest = of_currency c us in if currency_eq u.currency c then u ∷ rest else rest

-- `[]` where the map has no entry.
unfoldable pub units_by_currency : Currency → List MoneyUnit
unfolding units of_currency Currency-discrete
units_by_currency c = of_currency c units

abbrev first : List MoneyUnit → Option MoneyUnit
first [] = none
first (u ∷ _) = some u

unfoldable pub default_unit : Currency → Option MoneyUnit
unfolding units_by_currency
default_unit c = first (units_by_currency c)

unfoldable pub parse_unit : Str → Result MoneyUnit
unfolding units_by_symbol
parse_unit s = elim (units_by_symbol s) [ some u ↦ ok u | none ↦ err unknown_unit ]

pub record Money : Type 0 where
  pub amount : ℤ
  pub currency : Currency

abbrev pub money : ℤ → Currency → Money
money a c = record { amount = a; currency = c }

unfoldable pub add : Money → Money → Result Money
add a b =
    if currency_eq a.currency b.currency
    then ok (money (a.amount +64 b.amount) a.currency)
    else panic

unfoldable pub sub : Money → Money → Result Money
sub a b =
    if currency_eq a.currency b.currency
    then ok (money (a.amount -64 b.amount) a.currency)
    else panic

unfoldable pub neg : Money → Money
neg a = money (neg64 a.amount) a.currency

unfoldable pub min : Money → Money → Result Money
min a b =
    if currency_eq a.currency b.currency
    then ok (money (if ltb_ℤ b.amount a.amount then b.amount else a.amount) a.currency)
    else panic

unfoldable pub max : Money → Money → Result Money
max a b =
    if currency_eq a.currency b.currency
    then ok (money (if ltb_ℤ a.amount b.amount then b.amount else a.amount) a.currency)
    else panic
