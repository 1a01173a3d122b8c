-- ===== src/Fog/PlayerView/Hiding.antt =====
-- What a player's view depends on.
use europa_neo.Prelude.{
  ℕ, ◌+◌, ◌<◌, ◌≡◌, refl, sym, ap, arith, false, Option, none, some, ◌>>=◌, List, [], ◌∷◌, Memᴰ, ℤ,
  pos, if◌then◌else◌, for_grid-cong, Option-cases, inl, inr, fun_ext, ◌∙◌, ap₂, collect, for_grid,
}
use europa_neo.Core.Types.{Pos, coord}
use europa_neo.Core.PlayerId.{PlayerId}
use europa_neo.Engine.Types.{World, TickEvents}
use europa_neo.Engine.Registry.{index_of_id}
use europa_neo.Engine.Read.{get_cell, cells_in_range}
use europa_neo.Fog.Mask.{create_mask, is_cell_marked}
use europa_neo.Fog.VisibleSet.{
  VisibleSet, resolve_radius, is_viewer, mark_cells, mark_horizons, collect_marks, see,
  resolve_player_owner_byte, compute_visible_set,
}
use europa_neo.Fog.VisibleSet.Horizon.{Sees}
use europa_neo.Fog.VisibleSet.Refinement.{compute_visible_set-Sees}
use europa_neo.Fog.EventsFilter.{build_visible_index, filter_tick_events, shown}
use europa_neo.Fog.EventsFilter.Laws.{filter_tick_events-shown}
use europa_neo.Fog.PlayerView.{PlayerView, snapshot_config, decode_cells, look, compute_player_view}

-- Two worlds that differ, if at all, in what the player does not see: the same match, the same cells
-- occupied by the player, and the same content of each cell that the player sees.
pub record LookAlike (player : PlayerId) (w w' : World) : Type 0 where
  pub same_tick : w.tick ≡ w'.tick
  pub same_config : w.config ≡ w'.config
  pub same_registry : w.registry ≡ w'.registry
  pub same_width : w.board.width ≡ w'.board.width
  pub same_height : w.board.height ≡ w'.board.height
  pub same_viewers :
      (i : ℕ) (p : Pos)
      → index_of_id w.registry player ≡ some i
      → p.0 < w.board.width
      → p.1 < w.board.height
      → is_viewer w (i + 1) p ≡ is_viewer w' (i + 1) p
  pub same_cells :
      (i : ℕ) (p : Pos)
      → index_of_id w.registry player ≡ some i
      → Sees w (i + 1) (resolve_radius none w) p
      → get_cell w p ≡ get_cell w' p

module _ {player : PlayerId} {w w' : World} (a : LookAlike player w w') where
  cells_in_range-same : (p : Pos) (r : ℤ) → cells_in_range w p r ≡ cells_in_range w' p r
  unfolding cells_in_range
  cells_in_range-same p r = rw (a.same_width, a.same_height) refl

  mark_horizons-same :
      (i radius : ℕ) (data_ : List ℕ)
      → index_of_id w.registry player ≡ some i
      → mark_horizons w (i + 1) radius data_ ≡ mark_horizons w' (i + 1) radius data_
  unfolding mark_horizons
  mark_horizons-same i radius data_ e =
      for_grid-cong w.board.height 0 w.board.width 0 _ body data_ (λ p t b.
        rw
          (
            a.same_viewers i p e (omega (arith, b.left)) (omega (arith, b.over)),
            cells_in_range-same p (pos radius),
          )
          (ap
            (λ (k : ℕ).
              if is_viewer w' (i + 1) p
              then mark_cells k (cells_in_range w' p (pos radius)) t
              else t)
            a.same_width))
      ∙ ap₂ (λ (h k : ℕ). for_grid h 0 k 0 body data_) a.same_height a.same_width
    where
      body : Pos → List ℕ → List ℕ
      body p t =
          if is_viewer w' (i + 1) p
          then mark_cells w'.board.width (cells_in_range w' p (pos radius)) t
          else t

  see-same :
      (i radius : ℕ)
      → index_of_id w.registry player ≡ some i
      → see w (i + 1) radius ≡ see w' (i + 1) radius
  unfolding see collect_marks
  see-same i radius e = rw (fun_ext (λ data_. mark_horizons-same i radius data_ e)) (
      ap₂
        (λ (h k : ℕ). create_mask k h >>= λ mask. some (
          collect h 0 k 0 (λ p.
            is_cell_marked (record mask { data_ = mark_horizons w' (i + 1) radius mask.data_ })
              (coord p))))
        a.same_height a.same_width)

  owner_byte-same : resolve_player_owner_byte w player ≡ resolve_player_owner_byte w' player
  unfolding resolve_player_owner_byte
  owner_byte-same = rw a.same_registry refl

  registered :
      (i : ℕ)
      → index_of_id w.registry player ≡ some i
      → resolve_player_owner_byte w player ≡ some (i + 1)
  unfolding resolve_player_owner_byte
  registered i e = rw e refl

  unregistered : index_of_id w.registry player ≡ none → resolve_player_owner_byte w player ≡ none
  unfolding resolve_player_owner_byte
  unregistered e = rw e refl

  radius-same : resolve_radius none w ≡ resolve_radius none w'
  unfolding resolve_radius
  radius-same = rw a.same_config refl

  visible_of :
      (i : ℕ)
      → index_of_id w.registry player ≡ some i
      → compute_visible_set w player none ≡ (
          see w (i + 1) (resolve_radius none w) >>= λ cells.
          some (record { player = player; tick = w.tick; visible_cells = cells }))
  unfolding compute_visible_set resolve_player_owner_byte
  visible_of i e = rw (e, resolve_player_owner_byte, compute_visible_set) refl

  visible_of_other :
      (i : ℕ)
      → index_of_id w.registry player ≡ some i
      → compute_visible_set w' player none ≡ (
          see w' (i + 1) (resolve_radius none w') >>= λ cells.
          some (record { player = player; tick = w'.tick; visible_cells = cells }))
  unfolding compute_visible_set resolve_player_owner_byte
  visible_of_other i e =
      rw
        (
          ap (λ r. index_of_id r player) (sym a.same_registry) ∙ e,
          resolve_player_owner_byte,
          compute_visible_set,
        )
        refl

  compute_visible_set-same :
      (i : ℕ)
      → index_of_id w.registry player ≡ some i
      → compute_visible_set w player none ≡ compute_visible_set w' player none
  compute_visible_set-same i e =
      rw
        (
          visible_of i e,
          visible_of_other i e,
          see-same i (resolve_radius none w) e,
          radius-same,
          a.same_tick,
        )
        refl

  decode_cells-same :
      (cells : List Pos)
      → ((p : Pos) → Memᴰ p cells → get_cell w p ≡ get_cell w' p)
      → decode_cells w cells ≡ decode_cells w' cells
  unfolding decode_cells
  decode_cells-same [] same = refl
  decode_cells-same (c ∷ cs) same =
      rw (same c (Memᴰ.head refl), decode_cells-same cs (λ p m. same p (Memᴰ.tail m))) refl

  -- What the view is made of, once the visible set is known.
  abbrev payload : World → TickEvents → Option VisibleSet → Option PlayerView
  payload v events seen = seen >>= λ visible. decode_cells v visible.visible_cells >>= λ cells.
      some (record {
        player = player;
        tick = v.tick;
        visible_cells = cells;
        events = filter_tick_events v visible.visible_cells events false player;
        config = snapshot_config v.config;
      })

  filter_tick_events-same :
      (cells : List Pos) (events : TickEvents)
      → filter_tick_events w cells events false player
        ≡ filter_tick_events w' cells events false player
  filter_tick_events-same cells events =
      (filter_tick_events-shown w cells events player).0
      ∙ ap (λ (k : ℕ). shown (build_visible_index cells k) k player events) a.same_width
      ∙ sym (filter_tick_events-shown w' cells events player).0

  payload-same :
      (events : TickEvents) (visible : VisibleSet)
      → ((p : Pos) → Memᴰ p visible.visible_cells → get_cell w p ≡ get_cell w' p)
      → payload w events (some visible) ≡ payload w' events (some visible)
  payload-same events visible same =
      rw
        (
          filter_tick_events-same visible.visible_cells events,
          decode_cells-same visible.visible_cells same,
          a.same_tick,
          a.same_config,
        )
        refl

  look-same :
      (i : ℕ) (events : TickEvents)
      → index_of_id w.registry player ≡ some i
      → 0 < w.board.width
      → 0 < w.board.height
      → look w player events ≡ look w' player events
  unfolding look
  look-same i events e wide high =
      let (visible, seen, law) = compute_visible_set-Sees w wide high player none in
      ap (payload w events) seen
      ∙ payload-same events visible (λ p m. let (j, ej, s) = (law p).0 m in a.same_cells j p ej s)
      ∙ ap (payload w' events) (sym seen ∙ compute_visible_set-same i e)

  -- A player's view, for the same events, does not depend on what the player does not see.
  pub compute_player_view-hides :
      (events : Option TickEvents)
      → 0 < w.board.width
      → 0 < w.board.height
      → compute_player_view w player (record { spectator = false; events = events })
        ≡ compute_player_view w' player (record { spectator = false; events = events })
  unfolding compute_player_view look
  compute_player_view-hides events wide high = elim (Option-cases (index_of_id w.registry player)) [
    | inl missing ↦
        rw
          (
            unregistered missing,
            sym owner_byte-same ∙ unregistered missing,
            a.same_tick,
            a.same_config,
          )
          refl
    | inr (i, found) ↦
        rw (registered i found, sym owner_byte-same ∙ registered i found)
          (look-same i _ found wide high)
  ]
