-- ===== src/Fog/Examples.antt =====
-- Ann looks at the small board of the engine's examples.
use europa_neo.Prelude.{
  ℕ, ◌+◌, ◌≡◌, ◌<◌, ◌↔◌, refl, arith, true, false, none, some, [], ◌∷◌, Memᴰ, Returns, zero, suc,
  ◌*◌, at, sym, ◌∙◌, subst, ap₂,
}
use europa_neo.Core.Types.{Pos, coord}
use europa_neo.Core.PlayerId.{is_player_id, all_id_chars, is_id_char}
use europa_neo.Engine.Types.{World, TickEvents, empty_tick_events}
use europa_neo.Engine.Registry.{index_of_id}
use europa_neo.Engine.Read.{get_cell}
use europa_neo.Engine.Examples.{two_world, two_stacks, two_config, ann, bob}
use europa_neo.Fog.VisibleSet.{resolve_radius, compute_visible_set, is_viewer, to_signed32}
use europa_neo.Fog.VisibleSet.Horizon.{Sees}
use europa_neo.Fog.VisibleSet.Refinement.{compute_visible_set-Sees}
use europa_neo.Fog.EventsFilter.{build_visible_index, shown, filter_tick_events}
use europa_neo.Fog.EventsFilter.Laws.{filter_tick_events-shown}
use europa_neo.Fog.PlayerView.{compute_player_view}
use europa_neo.Fog.PlayerView.Hiding.{LookAlike, compute_player_view-hides}

-- A match in which a stack sees its own cell only.
abbrev blind_world : World
blind_world = record two_world { config = record two_config { visibility_radius = 0 } }

-- Bob's stack is larger, and a stack of his stands in the far corner.
abbrev other_world : World
other_world = record blind_world {
  state = record two_stacks {
    troop_counts = 20 ∷ 9 ∷ 0 ∷ 5 ∷ [];
    troop_owners = 1 ∷ 2 ∷ 0 ∷ 2 ∷ [];
  };
}

compute_visible_set-Sees_example :
    Returns
      (λ v.
        (p : Pos)
        → Memᴰ p v.visible_cells ↔ (
            (i : ℕ) × (index_of_id blind_world.registry ann ≡ some i)
            × Sees blind_world (i + 1) (resolve_radius none blind_world) p))
      (compute_visible_set blind_world ann none)
compute_visible_set-Sees_example =
    compute_visible_set-Sees blind_world (omega arith) (omega arith) ann none

some_inj : {i j : ℕ} → some i ≡ some j → i ≡ j
some_inj e = cc

ann_zero : index_of_id blind_world.registry ann ≡ some 0
unfolding index_of_id is_player_id all_id_chars is_id_char
ann_zero = refl

ann_first : (i : ℕ) → index_of_id blind_world.registry ann ≡ some i → 0 ≡ i
ann_first i e = some_inj (sym ann_zero ∙ e)

blind_radius : resolve_radius none blind_world ≡ 0
unfolding resolve_radius to_signed32
blind_radius = refl

-- The cells of owner 1 on the small board.
corner : (x y : ℕ) → x < 2 → y < 2 → at two_stacks.troop_owners (y * 2 + x) ≡ 1 → (x ≡ 0) × (y ≡ 0)
corner zero zero hx hy e = (refl, refl)
corner (suc zero) zero hx hy e = absurd (omega arith)
corner zero (suc zero) hx hy e = absurd (omega arith)
corner (suc zero) (suc zero) hx hy e = absurd (omega arith)
corner (suc (suc x)) y hx hy e = absurd (omega arith)
corner x (suc (suc y)) hx hy e = absurd (omega arith)

Sees-corner : (x y : ℕ) → Sees blind_world 1 0 (x, y) → (0 ≡ x) × (0 ≡ y)
Sees-corner x y s =
    let (ex, ey) = corner s.from.0 s.from.1 s.on_x s.on_y s.owned in
    (omega (arith, s.near.east_of, s.near.west_of), omega (arith, s.near.south_of, s.near.north_of))

abbrev SameContent : Pos → Type 0
SameContent p = get_cell blind_world p ≡ get_cell other_world p

look_alike : LookAlike ann blind_world other_world
unfolding is_viewer get_cell
look_alike = record {
  same_tick = refl;
  same_config = refl;
  same_registry = refl;
  same_width = refl;
  same_height = refl;
  same_viewers = λ i p e hx hy.
      subst (λ (j : ℕ). is_viewer blind_world (j + 1) p ≡ is_viewer other_world (j + 1) p)
        (ann_first i e) (viewers p.0 p.1 hx hy);
  same_cells = λ i p e s.
      let (ex, ey) = Sees-corner p.0 p.1 (
        subst (λ (j : ℕ). Sees blind_world (j + 1) 0 p) (sym (ann_first i e))
          (subst (λ (r : ℕ). Sees blind_world (i + 1) r p) blind_radius s)) in
      subst SameContent (ap₂ (λ (x y : ℕ). (x, y)) ex ey) first;
}
  where
    first : SameContent (0, 0)
    first = refl

    viewers :
        (x y : ℕ) → x < 2 → y < 2 → is_viewer blind_world 1 (x, y) ≡ is_viewer other_world 1 (x, y)
    viewers zero zero hx hy = refl
    viewers (suc zero) zero hx hy = refl
    viewers zero (suc zero) hx hy = refl
    viewers (suc zero) (suc zero) hx hy = refl
    viewers (suc (suc x)) y hx hy = absurd (omega arith)
    viewers x (suc (suc y)) hx hy = absurd (omega arith)

compute_player_view-hides_example :
    compute_player_view blind_world ann (record { spectator = false; events = none })
    ≡ compute_player_view other_world ann (record { spectator = false; events = none })
compute_player_view-hides_example =
    compute_player_view-hides look_alike none (omega arith) (omega arith)

-- A city changes hands in a cell that Ann does not see.
abbrev far_events : TickEvents
far_events = record empty_tick_events {
  captures = record { tick = 3; cell = coord (1, 0); from_owner = ann; to_owner = bob } ∷ [];
}

filter_tick_events-shown_example :
    (filter_tick_events two_world ((0, 0) ∷ []) far_events false ann
      ≡ shown (build_visible_index ((0, 0) ∷ []) 2) 2 ann far_events)
    × (filter_tick_events two_world ((0, 0) ∷ []) far_events true ann ≡ far_events)
filter_tick_events-shown_example = filter_tick_events-shown two_world ((0, 0) ∷ []) far_events ann
