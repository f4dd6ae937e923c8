-- ===== src/Routing/Types.antt =====
-- The parts of internal/config/config.go that the router reads, and its input. `AddrRewrite` and
-- `DestAddr` of a route are left out: the router only copies them.
use mysmpp.Base.{ℕ, ℤ, Bool, Dict, List, Option, Text}

pub record WeightedProvider : Type 0 where
  pub provider : Text
  pub weight : ℤ

pub record TimeWindow : Type 0 where
  pub days : List Text
  pub start : Text
  pub end : Text

-- `Enabled` is a pointer; `none` is nil.
pub record RouteConfig : Type 0 where
  pub name : Text
  pub prefix : List Text
  pub provider : Text
  pub priority : ℤ
  pub enabled : Option Bool
  pub from_prefix : List Text
  pub system_ids : List Text
  pub client_ids : List Text
  pub content_tags : List Text
  pub time_windows : List TimeWindow
  pub weighted : List WeightedProvider
  pub failover : List Text

-- What the router reads of a `time.Time`; Sunday is 0.
pub record Time : Type 0 where
  pub weekday : ℕ
  pub hour : ℕ
  pub minute : ℕ

-- `Now` is `none` for the zero time.
pub record MatchInput : Type 0 where
  pub gateway_id : Text
  pub to : Text
  pub from : Text
  pub system_id : Text
  pub client_id : Text
  pub tags : List Text
  pub now : Option Time

pub record Router : Type 0 where
  pub routes : List RouteConfig
  pub enabled_providers : Dict Text Bool

pub record MatchResult : Type 0 where
  pub route : RouteConfig
  pub provider : Text
  pub failover_chain : List Text
