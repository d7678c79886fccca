-- ===== src/OrderBook/Printing/RoundTrip.antt =====
-- What `MapOrderBook::toString` prints can be read back.
use Prim.Native.String.{String, ◌++◌}
use text.Mathlib.TextLemmas.{append_assoc, append-nil, cons-append, nil-append}
use rapid_trader.Base.{
  ℕ, zero, suc, ◌^◌, ◌<◌, ◌≤◌, ◌≡◌, refl, sym, ap, ◌∙◌, Option, none, some, ◌>>=◌, List, [], ◌∷◌,
  All, length, arith,
}
use rapid_trader.Containers.{Containers}
use rapid_trader.Level.{Level}
use rapid_trader.Level.Printing.{
  level_to_string, read_level, read_level-level_to_string, read_level_not,
}
use rapid_trader.OrderBook.{MapOrderBook}
use rapid_trader.OrderBook.Printing.{book_to_string, levels_to_string}
use rapid_trader.Order.Printing.RoundTrip.{read_line_of}
use rapid_trader.Text.Decimal.{StartsNoDigit}
use rapid_trader.Text.Lines.{read_labelled, read_prefix-append}
use rapid_trader.Text.Reading.{read_prefix}

-- The prices and the volumes of the levels at the front of a text, at most `fuel` of them.
unfoldable pub read_levels : ℕ → String → List (ℕ × ℕ) × String
read_levels zero s = ([], s)
read_levels (suc fuel) s = elim (read_level s) [
  | none ↦ ([], s)
  | some (level, s') ↦ let (levels, rest) = read_levels fuel s' in (level ∷ levels, rest)
]

module _ ⦃C : Containers⦄ where
  -- What is printed of a map of levels.
  abbrev pub quotes : List (ℕ × Level) → List (ℕ × ℕ)
  quotes [] = []
  quotes ((price, level) ∷ levels) = (level.price, level.volume) ∷ quotes levels

  abbrev pub AreWords : List (ℕ × Level) → Type 0
  AreWords = All (λ (e : ℕ × Level). (e.1.price < 2 ^ 64) × (e.1.volume < 2 ^ 64))

  read_levels-levels_to_string :
      (fuel : ℕ) (levels : List (ℕ × Level)) (rest : String)
      → length levels ≤ fuel
      → AreWords levels
      → StartsNoDigit rest
      → read_levels fuel (levels_to_string levels ++ rest) ≡ (quotes levels, rest)
  unfolding read_levels
  read_levels-levels_to_string zero [] rest h w stop = ap (λ t. ([], t)) (nil-append rest)
  read_levels-levels_to_string (suc fuel) [] rest h w stop =
      ap (read_levels (suc fuel)) (nil-append rest)
      ∙ rw (read_level_not rest stop, read_levels) refl
  read_levels-levels_to_string zero ((p, l) ∷ levels) rest h w stop = absurd (omega arith)
  read_levels-levels_to_string (suc fuel) ((p, l) ∷ levels) rest h ((hp, hv), w) stop =
      rw
        (
          append_assoc (level_to_string l) (levels_to_string levels) rest,
          read_level-level_to_string l (levels_to_string levels ++ rest) hp hv,
          read_levels,
          read_levels-levels_to_string fuel levels rest (omega arith) w stop,
        )
        refl

-- A section of a printed book: its heading and its levels.
abbrev read_section : ℕ → String → String → Option (List (ℕ × ℕ) × String)
read_section fuel heading s = do s' ← read_prefix heading s; some (read_levels fuel s')

-- What is printed of a book: the symbol, the last traded price, and the levels of the six maps.
pub record PrintedBook : Type 0 where
  pub symbol_id : ℕ
  pub last_traded_price : ℕ
  pub bids : List (ℕ × ℕ)
  pub asks : List (ℕ × ℕ)
  pub stop_bids : List (ℕ × ℕ)
  pub stop_asks : List (ℕ × ℕ)
  pub trailing_stop_bids : List (ℕ × ℕ)
  pub trailing_stop_asks : List (ℕ × ℕ)

-- A reader of what is printed, at most `fuel` levels of each map.
abbrev pub read_book : ℕ → String → Option (PrintedBook × String)
read_book fuel s = do
  (symbol_id, s1) ← read_labelled "SYMBOL ID : " "\n" s
  (last_traded_price, s2) ← read_labelled "LAST TRADED PRICE: " "\n" s1
  (bids, s3) ← read_section fuel "BID ORDERS\n" s2
  (asks, s4) ← read_section fuel "ASK ORDERS\n" s3
  (stop_bids, s5) ← read_section fuel "BID STOP ORDERS\n" s4
  (stop_asks, s6) ← read_section fuel "ASK STOP ORDERS\n" s5
  (trailing_stop_bids, s7) ← read_section fuel "BID TRAILING STOP ORDERS\n" s6
  (trailing_stop_asks, rest) ← read_section fuel "ASK TRAILING STOP ORDERS\n" s7
  some (
    record {
      symbol_id = symbol_id;
      last_traded_price = last_traded_price;
      bids = bids;
      asks = asks;
      stop_bids = stop_bids;
      stop_asks = stop_asks;
      trailing_stop_bids = trailing_stop_bids;
      trailing_stop_asks = trailing_stop_asks;
    },
    rest,
  )

module _ ⦃C : Containers⦄ where
  abbrev pub printed_book : MapOrderBook → PrintedBook
  printed_book b = record {
    symbol_id = b.symbol_id;
    last_traded_price = b.last_traded_price;
    bids = quotes b.bid_levels;
    asks = quotes b.ask_levels;
    stop_bids = quotes b.stop_bid_levels;
    stop_asks = quotes b.stop_ask_levels;
    trailing_stop_bids = quotes b.trailing_stop_bid_levels;
    trailing_stop_asks = quotes b.trailing_stop_ask_levels;
  }

  -- At most `fuel` levels, whose prices and volumes are machine words.
  abbrev pub IsPrintable : ℕ → List (ℕ × Level) → Type 0
  IsPrintable fuel levels = (length levels ≤ fuel) × AreWords levels

  pub record IsPrintableBook (fuel : ℕ) (b : MapOrderBook) : Type 0 where
    pub symbol_id : b.symbol_id < 2 ^ 64
    pub last_traded_price : b.last_traded_price < 2 ^ 64
    pub bids : IsPrintable fuel b.bid_levels
    pub asks : IsPrintable fuel b.ask_levels
    pub stop_bids : IsPrintable fuel b.stop_bid_levels
    pub stop_asks : IsPrintable fuel b.stop_ask_levels
    pub trailing_stop_bids : IsPrintable fuel b.trailing_stop_bid_levels
    pub trailing_stop_asks : IsPrintable fuel b.trailing_stop_ask_levels

  read_section-append :
      (fuel : ℕ) (heading : String) (levels : List (ℕ × Level)) (rest : String)
      → IsPrintable fuel levels
      → StartsNoDigit rest
      → read_section fuel heading (heading ++ levels_to_string levels ++ rest)
        ≡ some (quotes levels, rest)
  read_section-append fuel heading levels rest (few, words) stop =
      rw
        (
          read_prefix-append heading (levels_to_string levels ++ rest),
          read_levels-levels_to_string fuel levels rest few words stop,
        )
        refl

  -- A section in front of the heading of the next one.
  read_section_next :
      (fuel : ℕ) (heading : String) (levels : List (ℕ × Level)) (next rest : String)
      → IsPrintable fuel levels
      → ((t : String) → StartsNoDigit (next ++ t))
      → read_section fuel heading (heading ++ levels_to_string levels ++ next ++ rest)
        ≡ some (quotes levels, next ++ rest)
  read_section_next fuel heading levels next rest p stop =
      read_section-append fuel heading levels (next ++ rest) p (stop rest)

  -- What `MapOrderBook::toString` prints of a book whose numbers are machine words is read back: the
  -- symbol, the last traded price, and the prices and the volumes of all levels of the six maps, in
  -- order.
  pub read_book-book_to_string :
      (fuel : ℕ) (b : MapOrderBook)
      → IsPrintableBook fuel b
      → read_book fuel (book_to_string b) ≡ some (printed_book b, "")
  unfolding book_to_string
  read_book-book_to_string fuel b p =
      rw
        (
          read_line_of "SYMBOL ID : " b.symbol_id _ p.symbol_id,
          read_line_of "LAST TRADED PRICE: " b.last_traded_price _ p.last_traded_price,
          read_section_next fuel "BID ORDERS\n" b.bid_levels "ASK ORDERS\n" _ p.bids
              (λ t. rw cons-append refl),
          read_section_next fuel "ASK ORDERS\n" b.ask_levels "BID STOP ORDERS\n" _ p.asks
              (λ t. rw cons-append refl),
          read_section_next fuel "BID STOP ORDERS\n" b.stop_bid_levels "ASK STOP ORDERS\n" _
              p.stop_bids (λ t. rw cons-append refl),
          read_section_next fuel "ASK STOP ORDERS\n" b.stop_ask_levels "BID TRAILING STOP ORDERS\n"
              _ p.stop_asks (λ t. rw cons-append refl),
          read_section_next fuel "BID TRAILING STOP ORDERS\n" b.trailing_stop_bid_levels
              "ASK TRAILING STOP ORDERS\n" _ p.trailing_stop_bids (λ t. rw cons-append refl),
          sym (append-nil (levels_to_string b.trailing_stop_ask_levels)),
          read_section-append fuel "ASK TRAILING STOP ORDERS\n" b.trailing_stop_ask_levels ""
              p.trailing_stop_asks tt,
        )
        refl
