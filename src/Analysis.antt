-- ===== src/Analysis.antt =====
-- src/common/analyze_data.cpp: the two passes over a file. Its percentages and percentiles, in floating
-- point, are left out.
pub mod Prices
pub mod Counts
pub mod Exact
pub mod Windows
use feed_handler.Prelude.{
  ℕ, zero, suc, ◌+◌, ◌-◌, ◌*◌, ◌/◌, ◌%◌, ◌^◌, Bool, true, false, ◌&&◌, List, [], ◌∷◌, Option, none,
  some, ◌>>=◌, get_elem?, length, min, max, ltb, leb, ◌==◌, ◌!=◌, if◌then◌else◌,
}
use feed_handler.Map
use feed_handler.Map.{Map}
use feed_handler.Wire.Bytes.{Buffer}
use feed_handler.Wire.AddOrder
use feed_handler.Wire.AddOrder.{AddOrder}
use feed_handler.Wire.OrderDelete
use feed_handler.Wire.OrderDelete.{OrderDelete}
use feed_handler.Wire.OrderReplace
use feed_handler.Wire.OrderReplace.{OrderReplace}
use feed_handler.Feed.{next_message}

-- `SymStats`; the set of prices is a map to nothing.
pub record SymStats : Type 0 where
  pub min_price : ℕ
  pub max_price : ℕ
  pub distinct_prices : Map {0} Unit

pub record Survey : Type 0 where
  pub stats : Map SymStats
  pub live_orders : Map ℕ
  pub max_live : ℕ
  pub total_adds : ℕ
  pub not_multiple_of_1000 : ℕ
  pub not_multiple_of_100 : ℕ

abbrev pub no_stats : SymStats
no_stats = record { min_price = 2 ^ 32 - 1; max_price = 0; distinct_prices = [] }

abbrev pub start : Survey
start = record {
  stats = [];
  live_orders = [];
  max_live = 0;
  total_adds = 0;
  not_multiple_of_1000 = 0;
  not_multiple_of_100 = 0;
}

-- `stats[locate]`
unfoldable pub stats_of : Map SymStats → ℕ → SymStats
stats_of stats locate = elim (Map.find locate stats) [ none ↦ no_stats | some s ↦ s ]

-- `c++` on a `uint64_t`.
abbrev increment : ℕ → ℕ
increment c = (c + 1) % 2 ^ 64

unfoldable pub survey_add : Survey → AddOrder → Survey
survey_add v m =
    let s = stats_of v.stats m.stock_locate in
    let s' : SymStats = record {
      min_price = min s.min_price m.price;
      max_price = max s.max_price m.price;
      distinct_prices = Map.insert m.price tt s.distinct_prices;
    } in
    let live = Map.insert m.order_ref m.stock_locate v.live_orders in
    record {
      stats = Map.insert m.stock_locate s' v.stats;
      live_orders = live;
      max_live = max v.max_live (length live);
      total_adds = increment v.total_adds;
      not_multiple_of_1000 =
          if m.price % 1000 != 0 then increment v.not_multiple_of_1000 else v.not_multiple_of_1000;
      not_multiple_of_100 =
          if m.price % 100 != 0 then increment v.not_multiple_of_100 else v.not_multiple_of_100;
    }

unfoldable pub survey_delete : Survey → OrderDelete → Survey
survey_delete v m = record v { live_orders = Map.erase m.order_ref v.live_orders }

unfoldable pub survey_replace : Survey → OrderReplace → Survey
survey_replace v m = record v {
  live_orders = Map.insert m.new_order_ref 0 (Map.erase m.original_order_ref v.live_orders);
}

-- The `switch` of the first pass.
unfoldable pub survey_case : ℕ → Survey → Buffer → ℕ → Option Survey
survey_case type v buf msg =
    if type == b'A'
    then (do m ← AddOrder.parse buf msg; some (survey_add v m))
    else if type == b'D'
    then (do m ← OrderDelete.parse buf msg; some (survey_delete v m))
    else if type == b'U'
    then (do m ← OrderReplace.parse buf msg; some (survey_replace v m))
    else some v

-- The first pass, over the whole file.
unfoldable pub survey : ℕ → Buffer → ℕ → Survey → Option Survey
survey zero file offset v = some v
survey (suc fuel) file offset v = elim (next_message file offset) [
  | none ↦ some v
  | some (msg, len, offset') ↦ get_elem? file msg >>= λ type.
      survey_case type v file msg >>= λ v'. survey fuel file offset' v'
]

-- The counts of the second pass, for a window of `W` cents. `base` holds the first price in cents of a
-- stock's side, where the source has that less W / 2.
pub record Windowed : Type 0 where
  pub base : Map ℕ
  pub in_window : ℕ
  pub overflow : ℕ
  pub subpenny : ℕ

-- `(static_cast<uint32_t>(m.stock_locate) << 1) | (m.side == 'B' ? 0u : 1u)`
abbrev side_key : AddOrder → ℕ
side_key m = m.stock_locate * 2 + (if m.side == b'B' then 0 else 1)

-- `off >= 0 && off < W` for `off` of `cents - base`.
abbrev hits : ℕ → ℕ → ℕ → Bool
hits w first cents = leb first (cents + w / 2) && ltb (cents + w / 2 - first) w

-- The body of the loop, for an add-order message.
unfoldable pub window_add : ℕ → Windowed → AddOrder → Windowed
window_add w v m =
    let cents = m.price / 100 in
    if m.price % 100 != 0
    then record v { subpenny = increment v.subpenny; overflow = increment v.overflow }
    else elim (Map.find (side_key m) v.base) [
      | none ↦ record v {
        base = Map.insert (side_key m) cents v.base;
        in_window = increment v.in_window;
      }
      | some first ↦
          if hits w first cents
          then record v { in_window = increment v.in_window }
          else record v { overflow = increment v.overflow }
    ]

-- `if (m2[0] != 'A') continue;` and what follows.
unfoldable pub window_case : ℕ → ℕ → Windowed → Buffer → ℕ → Option Windowed
window_case w type v file msg =
    if type != b'A' then some v else (do m ← AddOrder.parse file msg; some (window_add w v m))

-- The loop over the file.
unfoldable pub window_pass : ℕ → ℕ → Buffer → ℕ → Windowed → Option Windowed
window_pass w zero file offset v = some v
window_pass w (suc fuel) file offset v = elim (next_message file offset) [
  | none ↦ some v
  | some (msg, len, offset') ↦ get_elem? file msg >>= λ type.
      window_case w type v file msg >>= λ v'. window_pass w fuel file offset' v'
]

abbrev pub no_windowed : Windowed
no_windowed = record { base = []; in_window = 0; overflow = 0; subpenny = 0 }

-- The windows that the second pass tries, each over the whole file.
unfoldable pub window_passes : ℕ → Buffer → List ℕ → Option (List Windowed)
window_passes fuel file [] = some []
window_passes fuel file (w ∷ ws) = do
  v ← window_pass w fuel file 0 no_windowed
  rest ← window_passes fuel file ws
  some (v ∷ rest)

abbrev pub windows : List ℕ
windows = 256 ∷ 1024 ∷ 4096 ∷ 16384 ∷ []
