-- ===== src/Core/Strategy/Gates.antt =====
-- What an allowed decision says: the gates of core/eligibility.py and the rules of each entry kind.
use jh_holdings.Prelude.{
  ◌≤◌, ◌≡◌, ◌≢◌, ◌↔◌, refl, Bool, true, false, not, ◌&&◌, List, ◌++◌, arith, is_empty, when,
}
use jh_holdings.Decimal.{of_ℕ, less, ◌≺◌}
use jh_holdings.Core.Enums.{safe_mode, MarketRegime, red, in_states, is_red}
use jh_holdings.Core.Config.{StrategyConfig}
use jh_holdings.Core.Eligibility.{Gate, gate_reasons}

pub record Passes (g : Gate) (config : StrategyConfig) : Type 0 where
  pub data_ok : g.data_ok ≡ true
  pub system_ok : g.system_ok ≡ true
  pub not_safe_mode : g.state ≢ safe_mode
  pub state : in_states g.state g.allowed_states ≡ true
  pub regime : g.regime ≢ red
  pub score : g.required_score ≤ g.score.total
  pub reversal : g.minimum_reversal_score ≤ g.score.reversal_score
  pub capital : of_ℕ 0 ≺ g.available_capital
  pub no_stop_loss : config.global.stop_loss_enabled ≡ false

is_red_iff : (r : MarketRegime) → (is_red r ≡ false) ↔ (r ≢ red)
is_red_iff MarketRegime.green = ground arith
is_red_iff MarketRegime.yellow = ground arith
is_red_iff MarketRegime.red = ground arith

is_empty-append {ℓ} :
    {A : Type ℓ} (b : Bool) (x : A) (xs : List A) → is_empty (when b x ++ xs) ≡ not b && is_empty xs
is_empty-append true x xs = refl
is_empty-append false x xs = refl

pub Passes-of_empty :
    (g : Gate) (config : StrategyConfig) → is_empty (gate_reasons g config) ≡ true → Passes g config
unfolding gate_reasons less
Passes-of_empty g config h = ground (arith, is_red_iff g.regime)

pub empty_of_Passes :
    (g : Gate) (config : StrategyConfig) → Passes g config → is_empty (gate_reasons g config) ≡ true
unfolding gate_reasons less
empty_of_Passes g config h = ground (arith, is_red_iff g.regime)
