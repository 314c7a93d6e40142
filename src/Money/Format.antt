-- ===== src/Money/Format.antt =====
-- `SelectUnit`, `Format`, `String` and `MarshalJSON` of common/money/money.go.
use bitwrk.Base.{
  ℕ, zero, suc, ◌+◌, ◌-◌, ◌*◌, ◌/◌, ◌%◌, Bool, true, false, ◌&&◌, Option, none, some, List, [], ◌∷◌,
  ◌++◌, Str, codes, ltb, decimal, if◌then◌else◌, Result, ok, panic, ◌>>=◌,
}
use bitwrk.Int.{ℤ, pos, negsuc, pos_part, neg_part, sub_ℕ, leb_ℤ, ltb_ℤ, eqb_ℤ}
use bitwrk.Int64.{neg64, ◌-64◌, ◌*64◌}
use bitwrk.Money.{Money, MoneyUnit, Currency-discrete, currency_eq, default_unit, units_by_currency}

abbrev is_some {ℓ} : {A : Type ℓ} → Option A → Bool
is_some none = false
is_some (some _) = true

-- The loop of `SelectUnit`: the last selectable unit so far, until one is not above `v`.
unfoldable pub select_from : ℤ → List MoneyUnit → Option MoneyUnit → Option MoneyUnit
select_from v [] found = found
select_from v (u ∷ us) found =
    let found' = if u.selectable then some u else found in
    let rest = select_from v us found' in
    if leb_ℤ (pos u.factor) v && is_some found' then found' else rest

abbrev or_panic {ℓ} : {A : Type ℓ} → Option A → Result A
or_panic none = panic
or_panic (some a) = ok a

abbrev abs64 : ℤ → ℤ
abs64 v = if ltb_ℤ v (pos 0) then neg64 v else v

unfoldable pub select_unit : Money → Result MoneyUnit
unfolding select_from default_unit units_by_currency
select_unit m = elim (units_by_currency m.currency) [
  | [] ↦ panic
  | u ∷ us ↦
      if eqb_ℤ m.amount (pos 0)
      then or_panic (default_unit m.currency)
      else or_panic (select_from (abs64 m.amount) (u ∷ us) none)
]

-- The loop of `formatAmount`; `b` falls by a factor of ten, so the fuel `b` itself suffices.
unfoldable pub format_fraction : ℕ → ℕ → ℕ → Str
format_fraction zero b frac = []
format_fraction (suc fuel) b frac =
    let digit = frac / b in
    let rest = ((b'0' + digit) % 256) ∷ format_fraction fuel (b / 10) (frac - digit * b) in
    if ltb 0 b && ltb 0 frac then rest else []

-- Division of an int64 by a positive number, truncated towards zero.
abbrev quot : ℤ → ℕ → ℤ
quot v f = sub_ℕ (pos_part v / f) (neg_part v / f)

abbrev signed_decimal : ℤ → Str
unfolding decimal
signed_decimal (pos n) = decimal n
signed_decimal (negsuc n) = b'-' ∷ decimal (suc n)

unfoldable pub format_amount : ℤ → ℕ → Str
unfolding format_fraction decimal signed_decimal
format_amount v f =
    let int_part = quot v f in
    let frac_part = v -64 (int_part *64 pos f) in
    if eqb_ℤ frac_part (pos 0)
    then signed_decimal int_part
    else signed_decimal int_part ++ (b'.' ∷ format_fraction (f / 10) (f / 10) (pos_part frac_part))

unfoldable pub format : Money → MoneyUnit → Bool → Result Str
unfolding format_amount Currency-discrete
format m u include_symbol =
    if currency_eq m.currency u.currency
    then (let amount = format_amount (abs64 m.amount) u.factor in
        let signed = (if ltb_ℤ m.amount (pos 0) then codes "-" else []) ++ amount in
        ok (if include_symbol then u.symbol ++ (codes " " ++ signed) else signed))
    else panic

unfoldable pub money_string : Money → Result Str
unfolding format select_unit
money_string m = do u ← select_unit m; format m u true

unfoldable pub marshal_json : Money → Result Str
unfolding money_string
marshal_json m = do s ← money_string m; ok (codes "\"" ++ (s ++ codes "\""))
