-- ===== src/Engine/Tick/Laws.antt =====
-- The tick of a well-formed world.
use europa_neo.Prelude.{
  ap, map, ℕ, ◌⊎◌, ◌+◌, ◌*◌, ◌≡◌, refl, sym, ◌∙◌, arith, List, [], All, none, some, Returns,
  Returns-bind, Option-cases, inl, inr,
}
use europa_neo.Core.FlowRate.{engine_constants}
use europa_neo.Engine.Types.{
  World, WorldState, Player, Order, TickEvents, TickResult, MatchResult, empty_tick_events,
}
use europa_neo.Engine.Registry.{count}
use europa_neo.Engine.Registry.Sorting.{All-sort_by}
use europa_neo.Engine.Valid.{IsValid, Fits, known-at}
use europa_neo.Engine.ApplyCommand.{Store, read_pending_orders, with_pending_orders}
use europa_neo.Engine.Sort.{sort_orders, compare_orders}
use europa_neo.Engine.Production.Laws.{resolve_production-IsValid}
use europa_neo.Engine.Paratroop.{Drop}
use europa_neo.Engine.Paratroop.Laws.{resolve_paratroop-IsValid}
use europa_neo.Engine.Gun.Laws.{gun_volley-AreTroops}
use europa_neo.Engine.Flow.{flow_buffers, resolve_flow}
use europa_neo.Engine.Flow.Laws.{flow_buffers-Flowing, resolve_flow-Flows}
use europa_neo.Engine.Combat.Laws.{resolve_combat-Fought}
use europa_neo.Engine.Capture.Laws.{resolve_capture-Captured}
use europa_neo.Engine.Decay.Laws.{resolve_decay-Decayed}
use europa_neo.Engine.Terminal.{alive_players, decide_match}
use europa_neo.Engine.Terminal.Outcome.{Ended, snapshot, resolve_terminal-Ended}
use europa_neo.Engine.ApplyCommand.Queues.{
  IsStaged, read_pending_orders-IsStaged, with_pending_orders-IsStore, make_ref-IsStore,
  read-with_pending_orders,
}
use europa_neo.Engine.ApplyCommand.Laws.{IsWorld}
use europa_neo.Engine.Tick.Orders.{apply_staged_orders-IsValid}
use europa_neo.Engine.Tick.{is_terminal, order_phases, battle_phases, decay_phase, run_phases, tick}

-- The state of a world in the middle of its tick.
abbrev IsMid : World → WorldState → Type 0
IsMid w s =
    IsValid (w.board.width * w.board.height) (count w.registry) engine_constants.cell_capacity s

module _ (st : Store) (w : World) (v : IsWorld st w) where
  bounds : Fits (count w.registry) engine_constants.cell_capacity
  bounds = record { few = v.few; small = omega arith }

  order_phases-IsMid :
      (sorted : List Order)
      → All IsStaged sorted
      → Returns (λ (out : WorldState × TickEvents). IsMid w out.0) (order_phases w sorted)
  unfolding order_phases
  order_phases-IsMid sorted staged =
      Returns-bind (λ (out : WorldState × Drop). IsMid w out.0)
        (λ (out : WorldState × TickEvents). IsMid w out.0)
        (resolve_paratroop-IsValid _ w.board engine_constants _ w.registry w.tick bounds
          (omega arith)
          (resolve_production-IsValid w.board engine_constants bounds (omega arith)
            (apply_staged_orders-IsValid sorted w.state w.board staged v.state)))
        (λ drop _ d. (
          _,
          refl,
          record {
            troops =
                gun_volley-AreTroops bounds drop.0 w.board engine_constants _ w.registry d.troops;
            masks_size = d.masks_size;
            reserves_size = d.reserves_size;
            cities_size = d.cities_size;
            cities_known = d.cities_known;
            reserves_bounded = d.reserves_bounded;
          },
        ))

  battle_phases-IsMid :
      (ordered : WorldState × TickEvents)
      → IsMid w ordered.0
      → Returns (λ (out : WorldState × TickEvents). IsMid w out.0) (battle_phases w ordered)
  unfolding battle_phases
  battle_phases-IsMid (s, events) v0 =
      let area : w.board.width * w.board.width ≡ w.board.width * w.board.height =
        ap (λ (h : ℕ). w.board.width * h) (sym v.square) in
      let flowing = flow_buffers-Flowing bounds w.board engine_constants (omega arith) area v0 in
      let flows = resolve_flow-Flows bounds w.board engine_constants (omega arith) area v0 in
      let flowed = resolve_flow s w.board engine_constants in
      let committed = (flow_buffers s w.board engine_constants).committed in
      let fought =
        resolve_combat-Fought flowed w.board engine_constants w.tick w.registry committed
          s.troop_owners s.troop_counts bounds
          (record {
            fit = omega arith;
            committed_known = flowing.committed_known;
            garrisons_known = known-at bounds v0.troops;
            valid = flows.valid;
          })
          refl in
      let Mid = λ (out : WorldState × TickEvents). IsMid w out.0 in
      Returns-bind Mid Mid (fought.0, fought.1, fought.2.valid)
        (λ after _ m.
          let taken =
            resolve_capture-Captured w.board w.tick w.registry bounds m engine_constants refl in
          Returns-bind Mid Mid (taken.0, taken.1, taken.2.valid) (λ out _ t. (_, refl, t)))

  decay_phase-IsMid : (s : WorldState) → IsMid w s → IsMid w (decay_phase w s)
  unfolding decay_phase
  decay_phase-IsMid s v0 =
      (resolve_decay-Decayed bounds v0 engine_constants (omega arith) w.board.width w.board
        refl).valid

  -- What a tick promises of its result: the next world is well-formed, one tick on, on the same board
  -- with the same players registered and no order pending; the players' snapshots are those of its state,
  -- and the match is decided by who is alive.
  pub record Ticked (out : Store × TickResult) : Type 0 where
    pub world : IsWorld out.0 out.1.world
    pub next_tick : out.1.world.tick ≡ w.tick + 1
    pub board : out.1.world.board ≡ w.board
    pub registry : out.1.world.registry ≡ w.registry
    pub fresh : (out.1.world.ref ≡ st.next_ref) × (out.0.next_ref ≡ st.next_ref + 1)
    pub players : out.1.world.players ≡ map (snapshot out.1.world.state w.registry) w.players
    pub decided : out.1.terminal ≡ decide_match (alive_players out.1.world.players) w.tick
    pub emptied : read_pending_orders out.0 out.1.world ≡ []

  run_phases-Ticked : Returns Ticked (run_phases st w)
  unfolding run_phases sort_orders with_pending_orders
  run_phases-Ticked =
      let sorted = sort_orders (read_pending_orders st w) in
      let staged = read_pending_orders-IsStaged st w v.store in
      Returns-bind (λ (out : WorldState × TickEvents). IsMid w out.0) Ticked
        (order_phases-IsMid sorted (All-sort_by compare_orders IsStaged _ staged))
        (λ ordered _ o.
          Returns-bind (λ (out : WorldState × TickEvents). IsMid w out.0) Ticked
            (battle_phases-IsMid ordered o)
            (λ battled _ b.
              Returns-bind (Ended (decay_phase w battled.0) w.players w.tick w.registry) Ticked
                (resolve_terminal-Ended (decay_phase w battled.0) w.players engine_constants w.tick
                  w.registry (decay_phase-IsMid battled.0 b))
                (λ r _ e.
                  let next = record w {
                    ref = st.next_ref;
                    tick = w.tick + 1;
                    state = decay_phase w battled.0;
                    players = r.players;
                  } in
                  let made = record st { next_ref = st.next_ref + 1 } in
                  (
                    _,
                    refl,
                    record {
                      world = record {
                        square = v.square;
                        few = v.few;
                        state = decay_phase-IsMid battled.0 b;
                        store =
                            with_pending_orders-IsStore made next [] (omega arith) tt
                              (make_ref-IsStore st v.store);
                        made = omega arith;
                      };
                      next_tick = refl;
                      board = refl;
                      registry = refl;
                      fresh = (refl, refl);
                      players = e.players;
                      decided =
                          e.decided
                          ∙ ap (λ (ps : List Player). decide_match (alive_players ps) w.tick)
                              (sym e.players);
                      emptied = read-with_pending_orders made next [];
                    },
                  ))))

  -- A tick of a well-formed world returns: a world that is over unchanged, with no events, or else a
  -- well-formed next world, one tick on, on the same board with the same registry, under a fresh
  -- identity and with no order pending. Its players are those of the last world, eliminated if they were
  -- alive and now have neither troops nor cities; the match is over if at most one is alive.
  pub tick-Ticked :
      Returns
        (λ out.
          ((m : MatchResult) × (is_terminal w ≡ some m)
            × (out ≡ (st, record { world = w; events = empty_tick_events; terminal = some m })))
          ⊎ ((is_terminal w ≡ none) × Ticked out))
        (tick st w)
  unfolding tick
  tick-Ticked = elim (Option-cases (is_terminal w)) [
    | inl q ↦ (let r = run_phases-Ticked in (r.0, rw (q, tick, r.1), inr (q, r.2)))
    | inr (m, q) ↦ (
      (st, record { world = w; events = empty_tick_events; terminal = some m }),
      rw (q, tick),
      inl (m, q, refl),
    )
  ]
