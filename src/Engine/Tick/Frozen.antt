-- ===== src/Engine/Tick/Frozen.antt =====
-- The ticks after the end of a match.
use europa_neo.Prelude.{ℕ, ◌+◌, ◌≡◌, refl, sym, subst, ◌∙◌, List, [], ◌∷◌, none, some, inl, inr}
use europa_neo.Engine.Types.{World, Player, TickResult, MatchResult, win, draw, empty_tick_events}
use europa_neo.Engine.ApplyCommand.{Store}
use europa_neo.Engine.ApplyCommand.Laws.{IsWorld}
use europa_neo.Engine.Terminal.{alive_players, decide_match}
use europa_neo.Engine.Tick.{is_terminal, tick}
use europa_neo.Engine.Tick.Laws.{Ticked, tick-Ticked}

-- A result with the tick that stands in it replaced.
abbrev pub stamped : ℕ → MatchResult → MatchResult
stamped t (win id _) = win id t
stamped t (draw _) = draw t

decide_match-stamped :
    (ps : List Player) (t t' : ℕ) (m : MatchResult)
    → decide_match ps t ≡ some m
    → decide_match ps t' ≡ some (stamped t' m)
decide_match-stamped [] t t' m h =
    let e : draw t ≡ m = cc in
    subst (λ (m : MatchResult). some (draw t') ≡ some (stamped t' m)) e refl
decide_match-stamped (p ∷ []) t t' m h =
    let e : win p.id t ≡ m = cc in
    subst (λ (m : MatchResult). some (win p.id t') ≡ some (stamped t' m)) e refl
decide_match-stamped (p ∷ q ∷ ps) t t' m h = absurd (cc)

-- The tick after the one that ends a match returns the same world and store, with no events. It reports
-- the same outcome, but with its own tick number, one more than that of the result before.
pub tick-frozen :
    (st : Store) (w : World) (out : Store × TickResult) (m : MatchResult)
    → IsWorld st w
    → is_terminal w ≡ none
    → tick st w ≡ some out
    → out.1.terminal ≡ some m
    → tick out.0 out.1.world
      ≡ some (
        out.0,
        record {
          world = out.1.world;
          events = empty_tick_events;
          terminal = some (stamped (w.tick + 1) m);
        },
      )
unfolding is_terminal tick
tick-frozen st w out m v going e over =
    let r = tick-Ticked st w v in
    let same : r.0 ≡ out = cc in
    let ticked : Ticked st w v out = elim r.2 [
      | inl (m', done, _) ↦ absurd (cc)
      | inr (_, t) ↦ subst (Ticked st w v) same t
    ] in
    let now : is_terminal out.1.world ≡ some (stamped (w.tick + 1) m) =
      subst
        (λ (t : ℕ).
          decide_match (alive_players out.1.world.players) t ≡ some (stamped (w.tick + 1) m))
        (sym ticked.next_tick)
        (decide_match-stamped (alive_players out.1.world.players) w.tick (w.tick + 1) m
          (sym ticked.decided ∙ over)) in
    rw (now, tick) refl
