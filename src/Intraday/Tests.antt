-- ===== src/Intraday/Tests.antt =====
-- Instances of the intraday theorems.
pub mod Data
use trading_ai_alpha_agent.Intraday.Clock.{parse_time}
use trading_ai_alpha_agent.Prelude.{
  String, ℕ, true, false, List, [], ◌∷◌, ◌++◌, none, some, All, ◌≡◌, ◌≢◌, ◌≤◌, refl, arith,
}
use trading_ai_alpha_agent.Prelude.Int.{pos, ◌≤ℤ◌, ◌*ℤ◌, ◌-ℤ◌}
use trading_ai_alpha_agent.Prelude.Text.{lookup}
use trading_ai_alpha_agent.Prelude.Result.{ok}
use trading_ai_alpha_agent.Prelude.FixedPoint.{Micros, fixed_point}
use trading_ai_alpha_agent.Risk.Engine.Tests.Data.{rupees}
use trading_ai_alpha_agent.Intraday.Config.{shadow_config_from_settings}
use trading_ai_alpha_agent.Intraday.Models.{
  Direction, MarketRegime, SignalDecision, SignalDraft, VirtualPosition, position_is_open,
  decision_is_valid, is_bearish, is_high_volatility, is_short, is_sideways, regime_index,
}
use trading_ai_alpha_agent.Intraday.Quality.{check_quality}
use trading_ai_alpha_agent.Intraday.Regime.{RegimeResult, classify, regime_of, votes_of}
use trading_ai_alpha_agent.Intraday.Scoring.{score_signal}
use trading_ai_alpha_agent.Intraday.RiskManager.{approve}
use trading_ai_alpha_agent.Intraday.Clock.{DateTime}
use trading_ai_alpha_agent.Intraday.Exits.{ExitDecision, stay, evaluate_virtual_exit}
use trading_ai_alpha_agent.Intraday.Positions.{close_virtual_position}
use trading_ai_alpha_agent.Intraday.Pipeline.State.{Strategy}
use trading_ai_alpha_agent.Intraday.Pipeline.Steps.{execute_signal}
use trading_ai_alpha_agent.Intraday.Pipeline.Process.{process_snapshots, default_strategies}
use trading_ai_alpha_agent.Intraday.Approved.{IsFit, IsWithinAccount, approve-IsFit}
use trading_ai_alpha_agent.Intraday.Halts.{process_snapshots_halted, bad_data_halts}
use trading_ai_alpha_agent.Intraday.Book.{IsSoundBook, process_snapshots-IsSoundBook}
use trading_ai_alpha_agent.Intraday.Levels.{IsHeld, evaluate_virtual_exit-IsHeld}
use trading_ai_alpha_agent.Intraday.Votes.{mirrored, reversed, regime_of-reversed}
use trading_ai_alpha_agent.Intraday.Graded.{score_signal_le, barred_rejected}
use trading_ai_alpha_agent.Intraday.Proposals.{IsAligned, default_strategies-IsAligned}
use trading_ai_alpha_agent.Intraday.Lifecycle.{
  IsClosed, close_virtual_position-IsClosed, execute_signal_opens,
}
use trading_ai_alpha_agent.Intraday.Tests.Data.{
  read_digits, config, moment, rising_market, pipeline, draws, call, dead_call, empty_state,
  halted_state, context, first_run, signal, scored_of, question, approval, position, book,
}

process_snapshots_halted_example :
    ((process_snapshots pipeline (call ∷ dead_call ∷ []) halted_state).positions ≡ [])
    × ((process_snapshots pipeline (call ∷ dead_call ∷ []) halted_state).kill_switch.reasons ≢ [])
process_snapshots_halted_example =
    process_snapshots_halted pipeline (call ∷ dead_call ∷ []) halted_state (λ e. cc)

bad_data_halts_example :
    (process_snapshots pipeline (dead_call ∷ call ∷ []) empty_state).positions ≡ []
unfolding check_quality ◌*ℤ◌ shadow_config_from_settings
bad_data_halts_example = bad_data_halts pipeline dead_call (call ∷ []) empty_state refl

process_snapshots-IsSoundBook_example :
    IsSoundBook config (process_snapshots pipeline (call ∷ dead_call ∷ []) empty_state).positions
process_snapshots-IsSoundBook_example =
    process_snapshots-IsSoundBook pipeline (call ∷ dead_call ∷ []) empty_state tt

approve-IsFit_example : IsFit config question approval × IsWithinAccount config question
unfolding approve ◌*ℤ◌ ◌-ℤ◌ decision_is_valid shadow_config_from_settings is_short regime_index
    is_sideways is_high_volatility
approve-IsFit_example = approve-IsFit config question approval refl refl

execute_signal_opens_example :
    (p : VirtualPosition Micros) × (lookup "position"
        (execute_signal context draws (scored_of signal) approval first_run).1.state.positions
      ≡ some p)
    × (position_is_open p.status ≡ true)
    × (p.quantity ≡ pos 125)
unfolding ◌*ℤ◌ shadow_config_from_settings ◌-ℤ◌
execute_signal_opens_example =
    execute_signal_opens context draws (scored_of signal) approval first_run
      (record { not_refused = refl; entry = refl; near = refl })

close_virtual_position-IsClosed_example :
    IsClosed "position" "TARGET_HIT" book
      (close_virtual_position "position" (rupees 1_020) "TARGET_HIT" moment book).1
      (close_virtual_position "position" (rupees 1_020) "TARGET_HIT" moment book).0
unfolding lookup
close_virtual_position-IsClosed_example =
    close_virtual_position-IsClosed "position" (rupees 1_020) "TARGET_HIT" moment book position refl

-- the moment of the snapshot, with the offset of India
abbrev in_india : DateTime
in_india = record { moment = moment; utc_offset = 19_800_000_000 }

evaluate_virtual_exit-IsHeld_example :
    IsHeld read_digits config position rising_market MarketRegime.strong_bullish in_india
unfolding evaluate_virtual_exit is_bearish parse_time shadow_config_from_settings
evaluate_virtual_exit-IsHeld_example =
    evaluate_virtual_exit-IsHeld read_digits config position rising_market
      MarketRegime.strong_bullish (some in_india) stay refl refl

regime_of-reversed_example :
    regime_of (reversed (votes_of rising_market)) ≡ mirrored (regime_of (votes_of rising_market))
regime_of-reversed_example = regime_of-reversed (votes_of rising_market)

score_signal_le_example : (score_signal config signal).score ≤ℤ pos 100
score_signal_le_example = score_signal_le config signal

barred_rejected_example :
    (score_signal config
      (record signal { regime_at_signal = MarketRegime.high_volatility })).decision
    ≡ SignalDecision.rejected
unfolding shadow_config_from_settings
barred_rejected_example =
    barred_rejected config (record signal { regime_at_signal = MarketRegime.high_volatility })
      (omega arith) refl

default_strategies-IsAligned_example :
    All
      (λ (strategy : Strategy Micros).
        (d : SignalDraft Micros)
        → strategy rising_market (classify config rising_market) ≡ some d
        → IsAligned rising_market (classify config rising_market) d)
      default_strategies
default_strategies-IsAligned_example =
    default_strategies-IsAligned rising_market (classify config rising_market)
