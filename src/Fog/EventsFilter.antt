-- ===== src/Fog/EventsFilter.antt =====
-- packages/fog/src/eventsFilter.ts: the events of a tick that a player may see. The key of a coordinate
-- with a part that is not a whole number is taken to be no key of the index.
pub mod Laws
use europa_neo.Prelude.{
  ℕ, ◌==◌, if◌then◌else◌, Bool, true, false, ◌&&◌, ◌||◌, Option, none, some, List, [], ◌∷◌, ◌++◌,
  length,
}
use europa_neo.Core.Types.{Coord, Pos, index, raw_index}
use europa_neo.Core.PlayerId.{PlayerId, eq_id}
use europa_neo.Engine.Types.{
  World, Order, set_pipe, clear_pipe, set_pipes_exclusive, clear_all_pipes, set_reserves, paratroop,
  gun, surrender, ValidationError, out_of_bounds, water_target, not_owner, no_source_troops,
  paratroop_range, already_surrendered, invalid_percent, unknown_player, TickEvents, CombatEvent,
  CaptureEvent, AppliedOrderRecord, OrderError,
}
use europa_neo.Engine.Sort.{player_of}

-- The set of keys, in the order in which they were added.
abbrev pub build_visible_index : List Pos → ℕ → List ℕ
build_visible_index [] width = []
build_visible_index (c ∷ cs) width = index width c ∷ build_visible_index cs width

abbrev pub has_key : List ℕ → ℕ → Bool
has_key [] k = false
has_key (x ∷ xs) k = x == k || has_key xs k

abbrev has_raw : List ℕ → Option ℕ → Bool
has_raw keys none = false
has_raw keys (some k) = has_key keys k

-- `visible.has(coord.y * width + coord.x)`.
abbrev pub has_coord : List ℕ → ℕ → Coord → Bool
has_coord keys width c = has_raw keys (raw_index width c)

abbrev pub order_coords : Order → List Coord
order_coords (set_pipe _ cell _) = cell ∷ []
order_coords (clear_pipe _ cell _) = cell ∷ []
order_coords (set_pipes_exclusive _ cell _) = cell ∷ []
order_coords (clear_all_pipes _ cell) = cell ∷ []
order_coords (set_reserves _ cell _) = cell ∷ []
order_coords (paratroop _ source target) = source ∷ target ∷ []
order_coords (gun _ source target) = source ∷ target ∷ []
order_coords (surrender _) = []

abbrev pub validation_error_coords : ValidationError → List Coord
validation_error_coords (out_of_bounds c) = c ∷ []
validation_error_coords (water_target c) = c ∷ []
validation_error_coords (not_owner c) = c ∷ []
validation_error_coords (no_source_troops c) = c ∷ []
validation_error_coords (paratroop_range source target _) = source ∷ target ∷ []
validation_error_coords (already_surrendered _) = []
validation_error_coords (unknown_player _) = []
validation_error_coords (invalid_percent _) = []

abbrev pub all_coords_visible : List Coord → List ℕ → ℕ → Bool
all_coords_visible [] keys width = true
all_coords_visible (c ∷ cs) keys width = has_coord keys width c && all_coords_visible cs keys width

-- `Array.prototype.filter`.
abbrev pub filter {ℓ} : {A : Type ℓ} → (A → Bool) → List A → List A
filter test [] = []
filter test (x ∷ xs) = let rest = filter test xs in if test x then x ∷ rest else rest

abbrev pub shows_combat : List ℕ → ℕ → CombatEvent → Bool
shows_combat keys width event = has_coord keys width event.cell

abbrev pub shows_capture : List ℕ → ℕ → CaptureEvent → Bool
shows_capture keys width event = has_coord keys width event.cell

-- `player` is not given in the spectator's call only.
abbrev pub shows_order : List ℕ → ℕ → PlayerId → AppliedOrderRecord → Bool
shows_order keys width player record_ =
    eq_id (player_of record_.order) player
    && all_coords_visible (order_coords record_.order) keys width

abbrev pub shows_error : List ℕ → ℕ → OrderError → Bool
shows_error keys width e =
    all_coords_visible (order_coords e.order ++ validation_error_coords e.reason) keys width

-- The events that pass the four filters.
unfoldable pub shown : List ℕ → ℕ → PlayerId → TickEvents → TickEvents
shown keys width player events = record events {
  combat = filter (shows_combat keys width) events.combat;
  captures = filter (shows_capture keys width) events.captures;
  applied_orders = filter (shows_order keys width player) events.applied_orders;
  errors = filter (shows_error keys width) events.errors;
}

abbrev pub nothing_to_hide : TickEvents → Bool
nothing_to_hide events =
    length events.combat == 0
    && length events.captures == 0
    && length events.applied_orders == 0
    && length events.errors == 0

abbrev pub nothing_dropped : TickEvents → TickEvents → Bool
nothing_dropped after events =
    length after.combat == length events.combat
    && length after.captures == length events.captures
    && length after.applied_orders == length events.applied_orders
    && length after.errors == length events.errors

unfoldable pub filter_tick_events :
    World → List Pos → TickEvents → (spectator : Bool) → PlayerId → TickEvents
unfolding shown
filter_tick_events w visible_cells events spectator player =
    let width = w.board.width in
    let after = shown (build_visible_index visible_cells width) width player events in
    if spectator
    then events
    else if nothing_to_hide events
    then events
    else if nothing_dropped after events
    then events
    else after
