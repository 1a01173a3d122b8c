-- ===== src/Engine/ApplyCommand.antt =====
-- packages/engine/src/applyCommand.ts: orders are staged in a table beside the worlds. The table is
-- shared by all worlds and keyed by the identity of the world object, `World.ref`; `next_ref` is the
-- identity of the next object that is made.
pub mod Queues
pub mod Laws
use europa_neo.Prelude.{
  ℕ, suc, ◌+◌, ◌==◌, if◌then◌else◌, Option, none, some, List, [], ◌∷◌, ◌++◌, map,
}
use europa_neo.Core.PlayerId.{PlayerId, eq_id}
use europa_neo.Engine.Types.{
  World, Player, eliminated, Order, gun, set_pipe, clear_pipe, set_pipes_exclusive, clear_all_pipes,
  set_reserves, paratroop, surrender, CommandResult, ok, fail,
}
use europa_neo.Engine.Validate.{validate_command}

-- `pendingOrdersTable`, a WeakMap; the newest entry of a key counts.
pub record Store : Type 0 where
  pub next_ref : ℕ
  pub queues : List (ℕ × List Order)

abbrev pub lookup_queue : ℕ → List (ℕ × List Order) → List Order
lookup_queue ref [] = []
lookup_queue ref ((r, orders) ∷ q) = if r == ref then orders else lookup_queue ref q

unfoldable pub read_pending_orders : Store → World → List Order
read_pending_orders st w = lookup_queue w.ref st.queues

unfoldable pub with_pending_orders : Store → World → List Order → Store
with_pending_orders st w orders = record st { queues = (w.ref, orders) ∷ st.queues }

unfoldable pub mark_player : PlayerId → Player → Player
mark_player player p = if eq_id p.id player then record p { status = eliminated } else p

-- A queue that is not empty goes with the new world.
abbrev pub carry_queue : Store → World → List Order → Store × World
carry_queue st next [] = (st, next)
carry_queue st next (o ∷ os) = (with_pending_orders st next (o ∷ os), next)

-- A new world object with the player out.
unfoldable pub mark_surrendered : Store → World → PlayerId → Store × World
mark_surrendered st w player =
    let next = record w { ref = st.next_ref; players = map (mark_player player) w.players } in
    carry_queue (record st { next_ref = st.next_ref + 1 }) next (read_pending_orders st w)

-- The effect of an order that was accepted.
unfoldable pub stage : Store → World → Order → Store × World
stage st w (surrender player) = mark_surrendered st w player
stage st w (set_pipe player cell d) =
    (with_pending_orders st w (read_pending_orders st w ++ set_pipe player cell d ∷ []), w)
stage st w (clear_pipe player cell d) =
    (with_pending_orders st w (read_pending_orders st w ++ clear_pipe player cell d ∷ []), w)
stage st w (set_pipes_exclusive player cell d) = (
  with_pending_orders st w (read_pending_orders st w ++ set_pipes_exclusive player cell d ∷ []),
  w,
)
stage st w (clear_all_pipes player cell) =
    (with_pending_orders st w (read_pending_orders st w ++ clear_all_pipes player cell ∷ []), w)
stage st w (set_reserves player cell percent) = (
  with_pending_orders st w (read_pending_orders st w ++ set_reserves player cell percent ∷ []),
  w,
)
stage st w (paratroop player source target) =
    (with_pending_orders st w (read_pending_orders st w ++ paratroop player source target ∷ []), w)
stage st w (gun player source target) =
    (with_pending_orders st w (read_pending_orders st w ++ gun player source target ∷ []), w)

pub record Applied : Type 0 where
  pub store : Store
  pub world : World
  pub result : CommandResult

unfoldable pub apply_command : Store → World → Order → Applied
apply_command st w cmd = elim (validate_command w cmd) [
  | fail e ↦ record { store = st; world = w; result = fail e }
  | ok ↦ (let s = stage st w cmd in record { store = s.0; world = s.1; result = ok })
]
