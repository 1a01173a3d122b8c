-- ===== src/Fog/EventsFilter/Laws.antt =====
-- The filter of a tick's events.
use europa_neo.Prelude.{
  ℕ, ◌≤◌, ◌≡◌, refl, ap, arith, Bool, true, false, if-elim, Bool-cases, inl, inr, List, [], ◌∷◌,
  length,
}
use europa_neo.Core.Types.{Pos}
use europa_neo.Core.PlayerId.{PlayerId}
use europa_neo.Engine.Types.{World, TickEvents}
use europa_neo.Fog.EventsFilter.{
  build_visible_index, filter, shows_combat, shows_capture, shows_order, shows_error, shown,
  nothing_to_hide, nothing_dropped, filter_tick_events,
}

module _ {ℓ} {A : Type ℓ} (test : A → Bool) where
  length-filter : (xs : List A) → length (filter test xs) ≤ length xs
  length-filter [] = omega arith
  length-filter (x ∷ xs) = ground (arith, length-filter xs)

  -- A filter that drops nothing changes nothing.
  filter_all : (xs : List A) → length (filter test xs) ≡ length xs → filter test xs ≡ xs
  filter_all [] e = refl
  filter_all (x ∷ xs) e = elim (Bool-cases (test x)) [
    | inl kept ↦ rw kept (ap (λ ys. x ∷ ys) (filter_all xs (ground arith)))
    | inr dropped ↦ absurd (ground (arith, length-filter xs))
  ]

  filter_none : (xs : List A) → length xs ≡ 0 → filter test xs ≡ xs
  filter_none [] e = refl
  filter_none (x ∷ xs) e = absurd (omega arith)

same_events :
    (keys : List ℕ) (width : ℕ) (player : PlayerId) (events : TickEvents)
    → (filter (shows_combat keys width) events.combat ≡ events.combat)
    → (filter (shows_capture keys width) events.captures ≡ events.captures)
    → (filter (shows_order keys width player) events.applied_orders ≡ events.applied_orders)
    → (filter (shows_error keys width) events.errors ≡ events.errors)
    → events ≡ shown keys width player events
unfolding shown
same_events keys width player events a b c d = rw (a, b, c, d) refl

-- For a player, the filter is the four filters of the events, its two shortcuts included; a spectator
-- gets every event.
pub filter_tick_events-shown :
    (w : World) (cells : List Pos) (events : TickEvents) (player : PlayerId)
    → (filter_tick_events w cells events false player
        ≡ shown (build_visible_index cells w.board.width) w.board.width player events)
      × (filter_tick_events w cells events true player ≡ events)
unfolding filter_tick_events shown
filter_tick_events-shown w cells events player = (
  if-elim (λ u. u ≡ all) (nothing_to_hide events)
      (λ none_.
        same (filter_none _ _ (ground arith)) (filter_none _ _ (ground arith))
          (filter_none _ _ (ground arith)) (filter_none _ _ (ground arith)))
      (λ some_.
        if-elim (λ u. u ≡ all) (nothing_dropped all events)
          (λ same_.
            same (filter_all _ _ (ground arith)) (filter_all _ _ (ground arith))
              (filter_all _ _ (ground arith)) (filter_all _ _ (ground arith)))
          (λ less. refl)),
  refl,
)
  where
    width : ℕ
    width = w.board.width

    keys : List ℕ
    keys = build_visible_index cells width

    all : TickEvents
    all = shown keys width player events

    same :
        (filter (shows_combat keys width) events.combat ≡ events.combat)
        → (filter (shows_capture keys width) events.captures ≡ events.captures)
        → (filter (shows_order keys width player) events.applied_orders ≡ events.applied_orders)
        → (filter (shows_error keys width) events.errors ≡ events.errors)
        → events ≡ all
    same = same_events keys width player events
