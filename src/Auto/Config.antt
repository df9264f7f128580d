-- ===== src/Auto/Config.antt =====
-- automation/service.py: the numbers that an operator may set.
use jh_holdings.Prelude.{Option, some, not, ◌&&◌, Result, ok, ◌>>◌, raise_if}
use jh_holdings.Decimal.{Decimal, of_ℕ, ratio, ◌⊗◌, divide, leq, quantize, quantize_down}
use jh_holdings.Auto.State.{AutoError, bad_capital, bad_ratio}

-- `_normalize_money` of a finite number
unfoldable pub normalize_money : Decimal → Result AutoError Decimal
normalize_money value = do
  raise_if
      (not
        (leq (of_ℕ 100) (quantize_down 100 value) && leq (quantize_down 100 value) (of_ℕ 10000000)))
      bad_capital
  ok (quantize_down 100 value)

-- `_normalize_ratio_percent` of a finite number
unfoldable pub normalize_ratio_percent : Decimal → Result AutoError Decimal
normalize_ratio_percent percent = do
  raise_if
      (not
        (leq (ratio 1 100) (divide percent (of_ℕ 100)) && leq (divide percent (of_ℕ 100)) (of_ℕ 1)))
      bad_ratio
  ok (quantize 10000 (divide percent (of_ℕ 100)))

-- `_target_principal`
unfoldable pub target_principal : Option Decimal → Option Decimal → Decimal
target_principal (some base) (some rate) = quantize_down 100 (base ⊗ rate)
target_principal _ _ = of_ℕ 0
