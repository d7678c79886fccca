-- ===== src/Order/Printing/RoundTrip.antt =====
-- What `Order::toString` prints can be read back.
use Prim.Native.String.{String, [], ◌++◌}
use text.Mathlib.TextLemmas.{append_assoc, append-nil, cons-append}
use rapid_trader.Base.{
  true, ℕ, ◌^◌, ◌<◌, ◌≡◌, refl, sym, ap, ◌∙◌, Option, none, some, ◌>>=◌, if◌then◌else◌,
}
use rapid_trader.Order.{Order, OrderType, OrderSide, OrderTimeInForce}
use rapid_trader.Order.Printing.{
  order_to_string, type_to_string, side_to_string, time_in_force_to_string,
}
use rapid_trader.Text.{to_string}
use rapid_trader.Text.Lines.{
  line, read_labelled, read_labelled-append, read_line, read_line-append, is_line, same_text,
  read_prefix-append,
}
use rapid_trader.Text.Reading.{read_prefix}

abbrev type_of_name : String → Option OrderType
type_of_name s =
    if same_text s "LIMIT"
    then some OrderType.limit
    else if same_text s "MARKET"
    then some OrderType.market
    else if same_text s "STOP"
    then some OrderType.stop
    else if same_text s "STOP LIMIT"
    then some OrderType.stop_limit
    else if same_text s "TRAILING STOP"
    then some OrderType.trailing_stop
    else if same_text s "TRAILING STOP LIMIT"
    then some OrderType.trailing_stop_limit
    else none

abbrev side_of_name : String → Option OrderSide
side_of_name s =
    if same_text s "ASK"
    then some OrderSide.ask
    else if same_text s "BID"
    then some OrderSide.bid
    else none

abbrev time_in_force_of_name : String → Option OrderTimeInForce
time_in_force_of_name s =
    if same_text s "GTC"
    then some OrderTimeInForce.gtc
    else if same_text s "FOK"
    then some OrderTimeInForce.fok
    else if same_text s "IOC"
    then some OrderTimeInForce.ioc
    else none

type_of_name-type_to_string : (t : OrderType) → type_of_name (type_to_string t) ≡ some t
unfolding same_text
type_of_name-type_to_string OrderType.limit = refl
type_of_name-type_to_string OrderType.market = refl
type_of_name-type_to_string OrderType.stop = refl
type_of_name-type_to_string OrderType.stop_limit = refl
type_of_name-type_to_string OrderType.trailing_stop = refl
type_of_name-type_to_string OrderType.trailing_stop_limit = refl

side_of_name-side_to_string : (s : OrderSide) → side_of_name (side_to_string s) ≡ some s
unfolding same_text
side_of_name-side_to_string OrderSide.ask = refl
side_of_name-side_to_string OrderSide.bid = refl

time_in_force_of_name-time_in_force_to_string :
    (t : OrderTimeInForce) → time_in_force_of_name (time_in_force_to_string t) ≡ some t
unfolding same_text
time_in_force_of_name-time_in_force_to_string OrderTimeInForce.gtc = refl
time_in_force_of_name-time_in_force_to_string OrderTimeInForce.fok = refl
time_in_force_of_name-time_in_force_to_string OrderTimeInForce.ioc = refl

is_line-type_to_string : (t : OrderType) → is_line (type_to_string t) ≡ true
is_line-type_to_string OrderType.limit = refl
is_line-type_to_string OrderType.market = refl
is_line-type_to_string OrderType.stop = refl
is_line-type_to_string OrderType.stop_limit = refl
is_line-type_to_string OrderType.trailing_stop = refl
is_line-type_to_string OrderType.trailing_stop_limit = refl

is_line-side_to_string : (s : OrderSide) → is_line (side_to_string s) ≡ true
is_line-side_to_string OrderSide.ask = refl
is_line-side_to_string OrderSide.bid = refl

is_line-time_in_force_to_string :
    (t : OrderTimeInForce) → is_line (time_in_force_to_string t) ≡ true
is_line-time_in_force_to_string OrderTimeInForce.gtc = refl
is_line-time_in_force_to_string OrderTimeInForce.fok = refl
is_line-time_in_force_to_string OrderTimeInForce.ioc = refl

-- A name, behind its label and on a line of its own.
abbrev read_named : {A : Type 0} → (String → Option A) → String → String → Option (A × String)
read_named of_name label s = do
  s' ← read_prefix label s
  (l, rest) ← read_line s'
  a ← of_name l
  some (a, rest)

read_named-append :
    {A : Type 0} (of_name : String → Option A) (label name : String) (a : A) (rest : String)
    → is_line name ≡ true
    → of_name name ≡ some a
    → read_named of_name label (label ++ name ++ "\n" ++ rest) ≡ some (a, rest)
read_named-append of_name label name a rest h e =
    rw (read_prefix-append label (name ++ "\n" ++ rest), read_line-append name rest h, e) refl

-- What is printed of an order.
pub record Printed : Type 0 where
  pub symbol_id : ℕ
  pub id : ℕ
  pub type : OrderType
  pub side : OrderSide
  pub time_in_force : OrderTimeInForce
  pub price : ℕ
  pub quantity : ℕ
  pub open_quantity : ℕ

abbrev pub printed : Order → Printed
printed o = record {
  symbol_id = o.symbol_id;
  id = o.id;
  type = o.type;
  side = o.side;
  time_in_force = o.time_in_force;
  price = o.price;
  quantity = o.quantity;
  open_quantity = o.open_quantity;
}

-- A reader of what is printed.
abbrev pub read_order : String → Option (Printed × String)
read_order s = do
  (symbol_id, s1) ← read_labelled "Symbol ID: " "\n" s
  (id, s2) ← read_labelled "Order ID: " "\n" s1
  (type, s3) ← read_named type_of_name "Type: " s2
  (side, s4) ← read_named side_of_name "Side: " s3
  (time_in_force, s5) ← read_named time_in_force_of_name "TOF: " s4
  (price, s6) ← read_labelled "Price: " "\n" s5
  (quantity, s7) ← read_labelled "Quantity: " "\n" s6
  (open_quantity, rest) ← read_labelled "Open Quantity: " "\n" s7
  some (
    record {
      symbol_id = symbol_id;
      id = id;
      type = type;
      side = side;
      time_in_force = time_in_force;
      price = price;
      quantity = quantity;
      open_quantity = open_quantity;
    },
    rest,
  )

-- The numbers of an order that are printed are machine words.
pub record IsWords (o : Order) : Type 0 where
  pub symbol_id : o.symbol_id < 2 ^ 64
  pub id : o.id < 2 ^ 64
  pub price : o.price < 2 ^ 64
  pub quantity : o.quantity < 2 ^ 64
  pub open_quantity : o.open_quantity < 2 ^ 64

line-append :
    (label value rest : String) → line label value ++ rest ≡ label ++ value ++ "\n" ++ rest
line-append label value rest =
    append_assoc label (value ++ "\n") rest ∙ ap (λ s. label ++ s) (append_assoc value "\n" rest)

-- A labelled line, read in front of the rest of a text.
pub read_line_of :
    (label : String) (n : ℕ) (rest : String)
    → n < 2 ^ 64
    → read_labelled label "\n" (line label (to_string n) ++ rest) ≡ some (n, rest)
read_line_of label n rest h =
    ap (read_labelled label "\n") (line-append label (to_string n) rest)
    ∙ read_labelled-append label "\n" n rest h (rw cons-append refl)

read_name_of :
    {A : Type 0} (of_name : String → Option A) (label name : String) (a : A) (rest : String)
    → is_line name ≡ true
    → of_name name ≡ some a
    → read_named of_name label (line label name ++ rest) ≡ some (a, rest)
read_name_of of_name label name a rest h e =
    ap (read_named of_name label) (line-append label name rest)
    ∙ read_named-append of_name label name a rest h e

-- What `Order::toString` prints of an order whose printed numbers are machine words is read back: its
-- IDs, its type, its side, its time in force, its price and both its quantities.
pub read_order-order_to_string :
    (o : Order) → IsWords o → read_order (order_to_string o) ≡ some (printed o, [])
unfolding order_to_string
read_order-order_to_string o w =
    rw
      (
        read_line_of "Symbol ID: " o.symbol_id _ w.symbol_id,
        read_line_of "Order ID: " o.id _ w.id,
        read_name_of type_of_name "Type: " (type_to_string o.type) o.type _
            (is_line-type_to_string o.type) (type_of_name-type_to_string o.type),
        read_name_of side_of_name "Side: " (side_to_string o.side) o.side _
            (is_line-side_to_string o.side) (side_of_name-side_to_string o.side),
        read_name_of time_in_force_of_name "TOF: " (time_in_force_to_string o.time_in_force)
            o.time_in_force _ (is_line-time_in_force_to_string o.time_in_force)
            (time_in_force_of_name-time_in_force_to_string o.time_in_force),
        read_line_of "Price: " o.price _ w.price,
        read_line_of "Quantity: " o.quantity _ w.quantity,
        sym (append-nil (line "Open Quantity: " (to_string o.open_quantity))),
        read_line_of "Open Quantity: " o.open_quantity [] w.open_quantity,
      )
      refl
