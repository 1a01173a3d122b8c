-- ===== src/Engine/Run.antt =====
-- The runs of a match: the caller of packages/engine/src/tick.ts and applyCommand.ts sends commands
-- and ticks, in any order, each to the world that the last one returned.
use europa_neo.Prelude.{◌≡◌, sym, subst, some, inl, inr}
use europa_neo.Engine.Types.{World, Order, CommandResult, ok, fail, TickResult}
use europa_neo.Engine.ApplyCommand.{Store, Applied, apply_command}
use europa_neo.Engine.ApplyCommand.Laws.{IsWorld, IsAnswer, apply_command-IsAnswer}
use europa_neo.Engine.Tick.{tick}
use europa_neo.Engine.Tick.Laws.{tick-Ticked}

pub record Match : Type 0 where
  pub store : Store
  pub world : World

pub data Step : Match → Match → Type 0 where
  command :
      (m : Match) (o : Order)
      → Step m (record {
        store = (apply_command m.store m.world o).store;
        world = (apply_command m.store m.world o).world;
      })
  advance :
      (m : Match) (out : Store × TickResult)
      → tick m.store m.world ≡ some out
      → Step m (record { store = out.0; world = out.1.world })

pub data Run : Match → Match → Type 0 where
  start : (m : Match) → Run m m
  next : (m n o : Match) → Run m n → Step n o → Run m o

answer-IsWorld :
    (st : Store) (w : World) (v : IsWorld st w) (o : Order) (r : CommandResult) (out : Applied)
    → IsAnswer st w v o r out
    → IsWorld out.store out.world
unfolding IsAnswer
answer-IsWorld st w v o ok out a = a.1.world
answer-IsWorld st w v o (fail e) out a =
    subst (λ (out : Applied). IsWorld out.store out.world) (sym a) v

tick-IsWorld :
    (st : Store) (w : World) (v : IsWorld st w) (out : Store × TickResult)
    → tick st w ≡ some out
    → IsWorld out.0 out.1.world
tick-IsWorld st w v out e =
    let r = tick-Ticked st w v in
    let same : r.0 ≡ out = cc in
    subst (λ (out : Store × TickResult). IsWorld out.0 out.1.world) same
      (elim r.2 [
        | inl (m, over, kept) ↦
            subst (λ (out : Store × TickResult). IsWorld out.0 out.1.world) (sym kept) v
        | inr (going, t) ↦ t.world
      ])

Step-IsWorld : {m n : Match} → Step m n → IsWorld m.store m.world → IsWorld n.store n.world
Step-IsWorld (command m o) v =
    answer-IsWorld m.store m.world v o _ _ (apply_command-IsAnswer m.store m.world v o)
Step-IsWorld (advance m out e) v = tick-IsWorld m.store m.world v out e

Run-IsWorld : {m n : Match} → Run m n → IsWorld m.store m.world → IsWorld n.store n.world
Run-IsWorld (start m) v = v
Run-IsWorld (next m n o r s) v = Step-IsWorld s (Run-IsWorld r v)

-- However a caller mixes commands and ticks, from a well-formed world every world is well-formed, and
-- the next tick returns: no tick of a match throws.
pub Run-safe :
    (m n : Match)
    → IsWorld m.store m.world
    → Run m n
    → IsWorld n.store n.world × ((out : Store × TickResult) × (tick n.store n.world ≡ some out))
Run-safe m n v r =
    let w = Run-IsWorld r v in let t = tick-Ticked n.store n.world w in (w, (t.0, t.1))
