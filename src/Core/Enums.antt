-- ===== src/Core/Enums.antt =====
-- app/core/enums.py: the enumerations, with the tests that the code makes on them.
use trading_ai_alpha_agent.Prelude.{String, Bool, true, false}

pub data TradingMode : Type 0 where
  backtest market_replay shadow_live paper_trading live_disabled : TradingMode
  backtest_real_historical_data shadow_live_real_data : TradingMode
  micro_live_autonomous live_autonomous : TradingMode

-- `TradingMode.value`
unfoldable pub mode_value : TradingMode → String
mode_value TradingMode.backtest = "BACKTEST"
mode_value TradingMode.market_replay = "MARKET_REPLAY"
mode_value TradingMode.shadow_live = "SHADOW_LIVE"
mode_value TradingMode.paper_trading = "PAPER_TRADING"
mode_value TradingMode.live_disabled = "LIVE_DISABLED"
mode_value TradingMode.backtest_real_historical_data = "BACKTEST_REAL_HISTORICAL_DATA"
mode_value TradingMode.shadow_live_real_data = "SHADOW_LIVE_REAL_DATA"
mode_value TradingMode.micro_live_autonomous = "MICRO_LIVE_AUTONOMOUS"
mode_value TradingMode.live_autonomous = "LIVE_AUTONOMOUS"

unfoldable pub is_live_capable : TradingMode → Bool
is_live_capable TradingMode.micro_live_autonomous = true
is_live_capable TradingMode.live_autonomous = true
is_live_capable _ = false

unfoldable pub is_shadow_like : TradingMode → Bool
is_shadow_like TradingMode.shadow_live = true
is_shadow_like TradingMode.shadow_live_real_data = true
is_shadow_like TradingMode.paper_trading = true
is_shadow_like TradingMode.backtest = true
is_shadow_like TradingMode.backtest_real_historical_data = true
is_shadow_like TradingMode.market_replay = true
is_shadow_like TradingMode.live_disabled = true
is_shadow_like _ = false

-- `mode == TradingMode.LIVE_AUTONOMOUS`
unfoldable pub is_live_autonomous : TradingMode → Bool
is_live_autonomous TradingMode.live_autonomous = true
is_live_autonomous _ = false

-- `mode == TradingMode.MICRO_LIVE_AUTONOMOUS`
unfoldable pub is_micro_live : TradingMode → Bool
is_micro_live TradingMode.micro_live_autonomous = true
is_micro_live _ = false

pub data Market : Type 0 where
  india us : Market

-- `==` on markets
unfoldable pub market_eq : Market → Market → Bool
market_eq Market.india Market.india = true
market_eq Market.us Market.us = true
market_eq _ _ = false

unfoldable pub is_india : Market → Bool
is_india Market.india = true
is_india Market.us = false

unfoldable pub is_us : Market → Bool
is_us Market.us = true
is_us Market.india = false

pub data AssetClass : Type 0 where
  equity etf cash : AssetClass

unfoldable pub is_etf : AssetClass → Bool
is_etf AssetClass.etf = true
is_etf _ = false

pub data TradeAction : Type 0 where
  buy sell hold no_trade : TradeAction

unfoldable pub is_buy : TradeAction → Bool
is_buy TradeAction.buy = true
is_buy _ = false

unfoldable pub is_sell : TradeAction → Bool
is_sell TradeAction.sell = true
is_sell _ = false

pub data RiskDecisionType : Type 0 where
  approved reduce_size rejected no_trade : RiskDecisionType

pub data OrderSide : Type 0 where
  buy sell : OrderSide

pub data OrderType : Type 0 where
  market limit : OrderType

pub data BrokerName : Type 0 where
  zerodha alpaca : BrokerName

-- `==` on broker names, which `_enum_value` compares by their texts
unfoldable pub broker_eq : BrokerName → BrokerName → Bool
broker_eq BrokerName.zerodha BrokerName.zerodha = true
broker_eq BrokerName.alpaca BrokerName.alpaca = true
broker_eq _ _ = false

pub data ProviderStatus : Type 0 where
  ok degraded down missing_credentials : ProviderStatus

unfoldable pub is_ok : ProviderStatus → Bool
is_ok ProviderStatus.ok = true
is_ok _ = false

pub data AuthStatus : Type 0 where
  valid invalid missing_credentials expired unknown : AuthStatus

unfoldable pub is_valid : AuthStatus → Bool
is_valid AuthStatus.valid = true
is_valid _ = false

unfoldable pub is_missing_credentials : AuthStatus → Bool
is_missing_credentials AuthStatus.missing_credentials = true
is_missing_credentials _ = false

pub data AccountStatus : Type 0 where
  active blocked disabled unknown : AccountStatus

unfoldable pub is_active : AccountStatus → Bool
is_active AccountStatus.active = true
is_active _ = false

pub data FreshnessStatus : Type 0 where
  fresh stale missing : FreshnessStatus

unfoldable pub is_fresh_status : FreshnessStatus → Bool
is_fresh_status FreshnessStatus.fresh = true
is_fresh_status _ = false

unfoldable pub is_missing_status : FreshnessStatus → Bool
is_missing_status FreshnessStatus.missing = true
is_missing_status _ = false

pub data MarketCalendarState : Type 0 where
  open_session closed unknown : MarketCalendarState

unfoldable pub is_open_state : MarketCalendarState → Bool
is_open_state MarketCalendarState.open_session = true
is_open_state _ = false

pub data OrderStatus : Type 0 where
  created submitted accepted partially_filled filled cancelled rejected : OrderStatus
  unknown_requires_reconciliation : OrderStatus

unfoldable pub is_unknown_order : OrderStatus → Bool
is_unknown_order OrderStatus.unknown_requires_reconciliation = true
is_unknown_order _ = false

pub data ReconciliationState : Type 0 where
  not_required required reconciled blocking_duplicates : ReconciliationState

pub data ComplianceApprovalStatus : Type 0 where
  approved not_approved pending not_required : ComplianceApprovalStatus

unfoldable pub is_approved_status : ComplianceApprovalStatus → Bool
is_approved_status ComplianceApprovalStatus.approved = true
is_approved_status _ = false

pub data ProviderType : Type 0 where
  market_data news fx broker_data : ProviderType
