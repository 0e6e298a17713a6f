-- ===== src/Money.antt =====
-- backend/src/money.ts. Amounts are bigints of minor units and never negative here: the schema
-- checks it and no code subtracts them. `amount_minor` stands for its decimal string, which the
-- source only makes by `toString`, reads back by `BigInt` and compares.
use ufsc_dso2_trabalho1_merc.Prelude.{
  ℕ, ◌+◌, ◌*◌, String, Bool, true, false, Option, none, some, leb, ◌==◌, ◌&&◌, if◌then◌else◌,
  str_eq,
}

pub record Money : Type 0 where
  pub currency : String
  pub amount_minor : ℕ

abbrev pub maximum_money_minor : ℕ
maximum_money_minor = 9_000_000_000_000_000

-- `left?.currency === right?.currency && left?.amountMinor === right?.amountMinor`
unfoldable pub same_money : Option Money → Option Money → Bool
same_money none none = true
same_money none (some r) = false
same_money (some l) none = false
same_money (some l) (some r) = str_eq l.currency r.currency && l.amount_minor == r.amount_minor

abbrev pub money_from_minor : String → ℕ → Money
money_from_minor currency amount_minor = record { currency = currency; amount_minor = amount_minor }

unfoldable pub checked_money_multiply : ℕ → ℕ → Option ℕ
checked_money_multiply amount_minor quantity =
    let result = amount_minor * quantity in
    if leb result maximum_money_minor then some result else none

unfoldable pub checked_money_add : ℕ → ℕ → Option ℕ
checked_money_add left right =
    let result = left + right in if leb result maximum_money_minor then some result else none
