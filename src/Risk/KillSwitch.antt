-- ===== src/Risk/KillSwitch.antt =====
-- app/risk/kill_switch.py: the state that gates live trading, and the switch over it.
use trading_ai_alpha_agent.Prelude.{String, Bool, true, false}
use trading_ai_alpha_agent.Core.Enums.{TradingMode}
use trading_ai_alpha_agent.Core.Config.{Settings}

pub record SystemStateSnapshot : Type 0 where
  pub trading_mode : TradingMode
  pub live_trading_enabled : Bool
  pub kill_switch : Bool
  pub compliance_status : String

-- `SystemStateSnapshot()`: the defaults
abbrev pub default_state : SystemStateSnapshot
default_state = record {
  trading_mode = TradingMode.shadow_live;
  live_trading_enabled = false;
  kill_switch = true;
  compliance_status = "NOT_APPROVED";
}

-- `SystemStateSnapshot.from_settings`
unfoldable pub state_from_settings : {R : Type 0} → Settings R → SystemStateSnapshot
state_from_settings s = record default_state {
  trading_mode = s.trading_mode;
  live_trading_enabled = s.live_trading_enabled;
  kill_switch = s.kill_switch;
}

-- `KillSwitch`, whose only field is the snapshot
unfoldable pub is_enabled : SystemStateSnapshot → Bool
is_enabled s = s.kill_switch

unfoldable pub enable : SystemStateSnapshot → SystemStateSnapshot
enable s = record s { kill_switch = true }

unfoldable pub disable : SystemStateSnapshot → SystemStateSnapshot
disable s = record s { kill_switch = false }
