-- ===== src/Order.antt =====
-- include/matching/orderbook/order.h: the order, its tests, its mutators and `validateOrder`
-- (src/matching/orderbook/order.cpp), as a build with `NDEBUG` compiles them: there `VALIDATE_ORDER`
-- expands to nothing. Order/Checked.antt has the mutators of a build without it. The twelve factories stand in Order/Factories.antt.
pub mod Factories
pub mod Execution
pub mod Validity
pub mod Printing
pub mod Accessors
pub mod Checked
use rapid_trader.Base.{
  ℕ, ◌%◌, min, Bool, true, false, not, ◌&&◌, ◌||◌, ◌==◌, leb, ltb, if◌then◌else◌, add64, sub64,
  u32_mod,
}

pub data OrderType : Type 0 where
  limit market stop stop_limit trailing_stop trailing_stop_limit : OrderType

pub data OrderTimeInForce : Type 0 where
  gtc fok ioc : OrderTimeInForce

pub data OrderSide : Type 0 where
  bid ask : OrderSide

pub record Order : Type 0 where
  pub type : OrderType
  pub side : OrderSide
  pub time_in_force : OrderTimeInForce
  pub symbol_id : ℕ
  pub price : ℕ
  pub stop_price : ℕ
  pub trail_amount : ℕ
  pub last_executed_price : ℕ
  pub id : ℕ
  pub quantity : ℕ
  pub executed_quantity : ℕ
  pub open_quantity : ℕ
  pub last_executed_quantity : ℕ

-- The private constructor: nothing is executed yet.
unfoldable pub new_order : OrderType → OrderSide → OrderTimeInForce → ℕ → ℕ → ℕ → ℕ → ℕ → ℕ → Order
new_order t s tif symbol price stop_price trail quantity order_id = record {
  type = t;
  side = s;
  time_in_force = tif;
  symbol_id = symbol;
  price = price;
  stop_price = stop_price;
  trail_amount = trail;
  last_executed_price = 0;
  id = order_id;
  quantity = quantity;
  executed_quantity = 0;
  open_quantity = quantity;
  last_executed_quantity = 0;
}

-- The enumerations' `==`, at each value that the source compares with.
abbrev pub side_is_ask : OrderSide → Bool
side_is_ask OrderSide.ask = true
side_is_ask OrderSide.bid = false

abbrev pub side_is_bid : OrderSide → Bool
side_is_bid OrderSide.bid = true
side_is_bid OrderSide.ask = false

abbrev pub type_is_limit : OrderType → Bool
type_is_limit OrderType.limit = true
type_is_limit _ = false

abbrev pub type_is_market : OrderType → Bool
type_is_market OrderType.market = true
type_is_market _ = false

abbrev pub type_is_stop : OrderType → Bool
type_is_stop OrderType.stop = true
type_is_stop _ = false

abbrev pub type_is_stop_limit : OrderType → Bool
type_is_stop_limit OrderType.stop_limit = true
type_is_stop_limit _ = false

abbrev pub type_is_trailing_stop : OrderType → Bool
type_is_trailing_stop OrderType.trailing_stop = true
type_is_trailing_stop _ = false

abbrev pub type_is_trailing_stop_limit : OrderType → Bool
type_is_trailing_stop_limit OrderType.trailing_stop_limit = true
type_is_trailing_stop_limit _ = false

abbrev pub tif_is_gtc : OrderTimeInForce → Bool
tif_is_gtc OrderTimeInForce.gtc = true
tif_is_gtc _ = false

abbrev pub tif_is_fok : OrderTimeInForce → Bool
tif_is_fok OrderTimeInForce.fok = true
tif_is_fok _ = false

abbrev pub tif_is_ioc : OrderTimeInForce → Bool
tif_is_ioc OrderTimeInForce.ioc = true
tif_is_ioc _ = false

abbrev pub is_ask : Order → Bool
is_ask o = side_is_ask o.side

abbrev pub is_bid : Order → Bool
is_bid o = side_is_bid o.side

abbrev pub is_limit : Order → Bool
is_limit o = type_is_limit o.type

abbrev pub is_market : Order → Bool
is_market o = type_is_market o.type

abbrev pub is_stop : Order → Bool
is_stop o = type_is_stop o.type

abbrev pub is_stop_limit : Order → Bool
is_stop_limit o = type_is_stop_limit o.type

abbrev pub is_trailing_stop : Order → Bool
is_trailing_stop o = type_is_trailing_stop o.type

abbrev pub is_trailing_stop_limit : Order → Bool
is_trailing_stop_limit o = type_is_trailing_stop_limit o.type

abbrev pub is_ioc : Order → Bool
is_ioc o = tif_is_ioc o.time_in_force

abbrev pub is_gtc : Order → Bool
is_gtc o = tif_is_gtc o.time_in_force

abbrev pub is_fok : Order → Bool
is_fok o = tif_is_fok o.time_in_force

abbrev pub is_filled : Order → Bool
is_filled o = o.open_quantity == 0

-- `operator==` compares the IDs alone.
abbrev pub same_order : Order → Order → Bool
same_order o other = o.id == other.id

-- The parameter `price_` is a `uint32_t`: what the caller passes is cut to 32 bits.
unfoldable pub execute : ℕ → ℕ → Order → Order
execute price_ quantity_ o = record o {
  open_quantity = sub64 o.open_quantity quantity_;
  executed_quantity = add64 o.executed_quantity quantity_;
  last_executed_price = price_ % u32_mod;
  last_executed_quantity = quantity_;
}

abbrev pub set_price : ℕ → Order → Order
set_price price_ o = record o { price = price_ }

abbrev pub set_stop_price : ℕ → Order → Order
set_stop_price stop_price_ o = record o { stop_price = stop_price_ }

abbrev pub set_trail_amount : ℕ → Order → Order
set_trail_amount trail_amount_ o = record o { trail_amount = trail_amount_ }

unfoldable pub set_quantity : ℕ → Order → Order
set_quantity quantity_ o = record o {
  quantity = min quantity_ o.open_quantity;
  open_quantity = sub64 o.open_quantity quantity_;
}

abbrev pub set_order_id : ℕ → Order → Order
set_order_id id_ o = record o { id = id_ }

abbrev pub set_type : OrderType → Order → Order
set_type action_ o = record o { type = action_ }

-- `validateOrder`: true exactly when none of its assertions fails.
unfoldable pub validate_order : Order → Bool
validate_order o =
    (if is_limit o || is_stop_limit o || is_trailing_stop_limit o then ltb 0 o.price else true)
    && (if is_market o || is_stop o || is_trailing_stop o then not (is_gtc o) else true)
    && ltb 0 o.quantity
    && leb o.last_executed_quantity o.quantity
    && leb o.executed_quantity o.quantity
    && ltb 0 o.id
