-- ===== src/Engine/Tick.antt =====
-- packages/engine/src/tick.ts: one step of the simulation. `none` is a thrown error. The scratch
-- buffers, zeroed before each use, are fresh arrays here.
pub mod Orders
pub mod Laws
pub mod Frozen
use europa_neo.Prelude.{
  ℕ, suc, ◌+◌, ◌-◌, ◌*◌, ◌%◌, ◌^◌, ◌==◌, if◌then◌else◌, Bool, true, false, not, ◌&&◌, ◌||◌, Option,
  none, some, ◌>>=◌, List, [], ◌∷◌, ◌++◌, get_elem?, at, write8, u8, pos, negsuc,
}
use europa_neo.Core.Types.{Num, int, other, Coord, Board, Direction, raw_index}
use europa_neo.Core.FlowRate.{EngineConstants, engine_constants}
use europa_neo.Engine.Types.{
  World, WorldState, Player, Order, gun, set_pipe, clear_pipe, set_pipes_exclusive, clear_all_pipes,
  set_reserves, paratroop, surrender, ok, AppliedOrderRecord, TickEvents, TickResult, MatchResult,
  win, draw, empty_tick_events, push_applied_order,
}
use europa_neo.Engine.Pipes.{bit, add_pipe, remove_pipe}
use europa_neo.Engine.ApplyCommand.{Store, read_pending_orders, with_pending_orders}
use europa_neo.Engine.Sort.{sort_orders}
use europa_neo.Engine.Production.{resolve_production}
use europa_neo.Engine.Paratroop.{resolve_paratroop}
use europa_neo.Engine.Gun.{gun_volley}
use europa_neo.Engine.Flow.{flow_buffers, resolve_flow}
use europa_neo.Engine.Combat.{resolve_combat}
use europa_neo.Engine.Capture.{resolve_capture}
use europa_neo.Engine.Decay.{reserved_floors, has_incoming_same_owner_pipe, resolve_decay}
use europa_neo.Engine.Terminal.{alive_players, decide_match, resolve_terminal, TerminalResult}

unfoldable pub is_terminal : World → Option MatchResult
is_terminal w = decide_match (alive_players w.players) w.tick

-- The write of one mask; a write out of range is ignored.
abbrev write_at : List ℕ → Option ℕ → (ℕ → ℕ) → List ℕ
write_at xs none f = xs
write_at xs (some i) f = write8 xs i (f (at xs i))

-- The byte that an assignment of `percent` stores. What is no integer, which validation refuses,
-- stands as NaN, which stores 0.
abbrev to_byte : Num → ℕ
to_byte (int (pos n)) = u8 n
to_byte (int (negsuc n)) = 255 - u8 n
to_byte other = 0

unfoldable pub dispatch_order_effect : Order → WorldState → Board → WorldState
dispatch_order_effect (set_pipe _ cell d) s b = record s {
  pipe_masks = write_at s.pipe_masks (raw_index b.width cell) (λ m. add_pipe m d);
}
dispatch_order_effect (clear_pipe _ cell d) s b = record s {
  pipe_masks = write_at s.pipe_masks (raw_index b.width cell) (λ m. remove_pipe m d);
}
dispatch_order_effect (set_pipes_exclusive _ cell d) s b = record s {
  pipe_masks = write_at s.pipe_masks (raw_index b.width cell) (λ m. bit d);
}
dispatch_order_effect (clear_all_pipes _ cell) s b = record s {
  pipe_masks = write_at s.pipe_masks (raw_index b.width cell) (λ m. 0);
}
dispatch_order_effect (set_reserves _ cell percent) s b = record s {
  reserves_pct = write_at s.reserves_pct (raw_index b.width cell) (λ m. to_byte percent);
}
dispatch_order_effect (paratroop _ _ _) s b = s
dispatch_order_effect (gun _ _ _) s b = s
dispatch_order_effect (surrender _) s b = s

-- The loop over the sorted orders, on the state.
unfoldable pub apply_staged_orders : List Order → WorldState → Board → WorldState
apply_staged_orders [] s b = s
apply_staged_orders (o ∷ os) s b = apply_staged_orders os (dispatch_order_effect o s b) b

abbrev pub is_paratroop : Order → Bool
is_paratroop (set_pipe _ _ _) = false
is_paratroop (clear_pipe _ _ _) = false
is_paratroop (set_pipes_exclusive _ _ _) = false
is_paratroop (clear_all_pipes _ _) = false
is_paratroop (set_reserves _ _ _) = false
is_paratroop (paratroop _ _ _) = true
is_paratroop (gun _ _ _) = false
is_paratroop (surrender _) = false

abbrev pub is_gun : Order → Bool
is_gun (set_pipe _ _ _) = false
is_gun (clear_pipe _ _ _) = false
is_gun (set_pipes_exclusive _ _ _) = false
is_gun (clear_all_pipes _ _) = false
is_gun (set_reserves _ _ _) = false
is_gun (paratroop _ _ _) = false
is_gun (gun _ _ _) = true
is_gun (surrender _) = false

unfoldable pub orders_of : (Order → Bool) → List Order → List Order
orders_of p [] = []
orders_of p (o ∷ os) = let rest = orders_of p os in if p o then o ∷ rest else rest

-- The positions in the sorted list of the orders of one kind, counted from `i`.
unfoldable pub positions_of : (Order → Bool) → ℕ → List Order → List ℕ
positions_of p i [] = []
positions_of p i (o ∷ os) = let rest = positions_of p (i + 1) os in if p o then i ∷ rest else rest

-- `successfulDeferredIndices`: the sorted positions of the occurrences that succeeded.
unfoldable pub sorted_positions : List ℕ → List ℕ → List ℕ
sorted_positions positions [] = []
sorted_positions positions (i ∷ is) =
    let rest = sorted_positions positions is in
    elim (get_elem? positions i) [ none ↦ rest | some k ↦ k ∷ rest ]

abbrev pub contains : ℕ → List ℕ → Bool
contains i [] = false
contains i (k ∷ ks) = k == i || contains i ks

-- The loop over the staged records: a deferred order is recorded if it succeeded.
unfoldable pub record_orders : ℕ → List ℕ → ℕ → List Order → TickEvents → TickEvents
record_orders tick done i [] events = events
record_orders tick done i (o ∷ os) events = record_orders tick done (i + 1) os (
    if not (is_paratroop o || is_gun o) || contains i done
    then push_applied_order events (record { tick = tick; order = o; result = ok })
    else events)

-- Phases 0 to 3: the orders, production, paratroopers and guns.
unfoldable pub order_phases : World → List Order → Option (WorldState × TickEvents)
order_phases w sorted = do
  let staged = apply_staged_orders sorted w.state w.board
  let produced = resolve_production staged w.board engine_constants
  drop ←
      resolve_paratroop produced w.board engine_constants (orders_of is_paratroop sorted) w.registry
        w.tick
  let volley = gun_volley drop.0 w.board engine_constants (orders_of is_gun sorted) w.registry
  let done =
      sorted_positions (positions_of is_paratroop 0 sorted) drop.1.successful
      ++ sorted_positions (positions_of is_gun 0 sorted) volley.successful
  let events = record empty_tick_events {
    combat = drop.1.events.combat;
    errors = drop.1.errors ++ volley.errors;
  }
  some (
    record drop.0 { troop_counts = volley.counts; troop_owners = volley.owners },
    record_orders w.tick done 0 sorted events,
  )

-- Phases 4 to 6: flow, combat and capture.
unfoldable pub battle_phases : World → WorldState × TickEvents → Option (WorldState × TickEvents)
battle_phases w (s, events) = do
  let flow = flow_buffers s w.board engine_constants
  fought ←
      resolve_combat (resolve_flow s w.board engine_constants) w.board engine_constants w.tick
        w.registry flow.committed s.troop_owners s.troop_counts
  taken ← resolve_capture fought.0 w.board engine_constants w.tick w.registry
  some (
    taken.0,
    record events {
      combat = events.combat ++ fought.1.combat;
      captures = events.captures ++ taken.1.captures;
    },
  )

-- Phase 7.
unfoldable pub decay_phase : World → WorldState → WorldState
decay_phase w s =
    let n = w.board.width * w.board.height in
    resolve_decay s w.board engine_constants (has_incoming_same_owner_pipe s w.board.width n)
      (reserved_floors s n)

-- The phases of a match that is not over. The next world is a new object with an empty queue.
unfoldable pub run_phases : Store → World → Option (Store × TickResult)
run_phases st w = do
  ordered ← order_phases w (sort_orders (read_pending_orders st w))
  battled ← battle_phases w ordered
  let s = decay_phase w battled.0
  r ← resolve_terminal s w.players engine_constants w.tick w.registry
  let events = battled.1
  let next = record w { ref = st.next_ref; tick = w.tick + 1; state = s; players = r.players }
  some (
    with_pending_orders (record st { next_ref = st.next_ref + 1 }) next [],
    record {
      world = next;
      events = record events { eliminations = events.eliminations ++ r.events.eliminations };
      terminal = r.terminal;
    },
  )

-- A match that is over stays as it is.
unfoldable pub tick : Store → World → Option (Store × TickResult)
tick st w = elim (is_terminal w) [
  | some m ↦ some (st, record { world = w; events = empty_tick_events; terminal = some m })
  | none ↦ run_phases st w
]
