-- ===== src/Engine/ApplyCommand/Laws.antt =====
-- What `applyCommand` does to the table and the world.
use europa_neo.Prelude.{
  ℕ, ◌+◌, ◌*◌, ◌≤◌, ◌<◌, ◌≡◌, ◌≢◌, refl, sym, ◌∙◌, arith, List, [], ◌∷◌, ◌++◌, All, All-append,
  Bool, true, false, subst, map,
}
use europa_neo.Core.FlowRate.{engine_constants}
use europa_neo.Engine.Types.{
  World, Order, gun, set_pipe, clear_pipe, set_pipes_exclusive, clear_all_pipes, set_reserves,
  paratroop, surrender, CommandResult, ok, fail,
}
use europa_neo.Core.PlayerId.{PlayerId}
use europa_neo.Engine.Registry.{count}
use europa_neo.Engine.Valid.{IsValid}
use europa_neo.Engine.Validate.{validate_command, validate_set_reserves}
use europa_neo.Engine.ApplyCommand.{
  Store, carry_queue, Applied, lookup_queue, read_pending_orders, with_pending_orders, mark_player,
  mark_surrendered, stage, apply_command,
}
use europa_neo.Engine.ApplyCommand.Queues.{
  IsStaged, IsStore, read_pending_orders-IsStaged, with_pending_orders-IsStore, make_ref-IsStore,
  read-with_pending_orders, lookup_queue-fresh, lookup_queue-other,
}

-- A world of the store, on a square board with at most four players, in a valid state.
pub record IsWorld (st : Store) (w : World) : Type 0 where
  pub square : w.board.height ≡ w.board.width
  pub few : count w.registry ≤ 4
  pub state :
      IsValid
        (w.board.width * w.board.height)
        (count w.registry)
        engine_constants.cell_capacity
        w.state
  pub store : IsStore st
  pub made : w.ref < st.next_ref

abbrev pub surrenders : Order → Bool
surrenders (set_pipe _ _ _) = false
surrenders (clear_pipe _ _ _) = false
surrenders (set_pipes_exclusive _ _ _) = false
surrenders (clear_all_pipes _ _) = false
surrenders (set_reserves _ _ _) = false
surrenders (paratroop _ _ _) = false
surrenders (gun _ _ _) = false
surrenders (surrender _) = true

validate_command-IsStaged : (w : World) (o : Order) → validate_command w o ≡ ok → IsStaged o
unfolding validate_command validate_set_reserves
validate_command-IsStaged w (set_pipe _ _ _) h = tt
validate_command-IsStaged w (clear_pipe _ _ _) h = tt
validate_command-IsStaged w (set_pipes_exclusive _ _ _) h = tt
validate_command-IsStaged w (clear_all_pipes _ _) h = tt
validate_command-IsStaged w (set_reserves player cell percent) h = ground arith
validate_command-IsStaged w (paratroop _ _ _) h = tt
validate_command-IsStaged w (gun _ _ _) h = tt
validate_command-IsStaged w (surrender _) h = tt

-- What an accepted order leaves.
pub record Staged (st : Store) (w : World) (o : Order) (out : Store × World) : Type 0 where
  pub queued :
      surrenders o ≡ false
      → (out.1 ≡ w) × (read_pending_orders out.0 w ≡ read_pending_orders st w ++ o ∷ [])
  pub surrendered :
      surrenders o ≡ true
      → (out.1.ref ≡ st.next_ref)
        × (read_pending_orders out.0 out.1 ≡ read_pending_orders st w)
        × (read_pending_orders out.0 w ≡ read_pending_orders st w)
        × (out.1.state ≡ w.state)
  pub others :
      (ref : ℕ)
      → ref < st.next_ref
      → ref ≢ w.ref
      → lookup_queue ref out.0.queues ≡ lookup_queue ref st.queues
  pub world : IsWorld out.0 out.1

module _ (st : Store) (w : World) (v : IsWorld st w) where
  queue-Staged :
      (o : Order)
      → IsStaged o
      → surrenders o ≡ false
      → Staged st w o (with_pending_orders st w (read_pending_orders st w ++ o ∷ []), w)
  unfolding with_pending_orders
  queue-Staged o h plain = record {
    queued = λ _. (refl, read-with_pending_orders st w _);
    surrendered = λ s. absurd (cc);
    others = λ ref _ ne. lookup_queue-other st w _ ref ne;
    world = record {
      square = v.square;
      few = v.few;
      state = v.state;
      store =
          with_pending_orders-IsStore st w (read_pending_orders st w ++ o ∷ []) v.made
            (All-append IsStaged _ (o ∷ []) (read_pending_orders-IsStaged st w v.store) (h, tt))
            v.store;
      made = v.made;
    };
  }

  surrendered_world : PlayerId → World
  surrendered_world player = record w {
    ref = st.next_ref;
    players = map (mark_player player) w.players;
  }

  made_store : Store
  made_store = record st { next_ref = st.next_ref + 1 }

  carry_queue-Staged :
      (player : PlayerId) (q : List Order)
      → q ≡ read_pending_orders st w
      → Staged st w (surrender player) (carry_queue made_store (surrendered_world player) q)
  unfolding with_pending_orders surrendered_world made_store read_pending_orders
  carry_queue-Staged player [] e = record {
    queued = λ s. absurd (cc);
    surrendered = λ _. (
      refl,
      lookup_queue-fresh st.next_ref st.next_ref st.queues v.store.made (omega arith) ∙ e,
      refl,
      refl,
    );
    others = λ ref _ ne. refl;
    world = record {
      square = v.square;
      few = v.few;
      state = v.state;
      store = make_ref-IsStore st v.store;
      made = omega arith;
    };
  }
  carry_queue-Staged player (o ∷ os) e = record {
    queued = λ s. absurd (cc);
    surrendered = λ _. (
      refl,
      read-with_pending_orders made_store (surrendered_world player) (o ∷ os) ∙ e,
      lookup_queue-other made_store (surrendered_world player) (o ∷ os) w.ref
          (ground (arith, v.made)),
      refl,
    );
    others = λ ref lt ne.
        lookup_queue-other made_store (surrendered_world player) (o ∷ os) ref (ground arith);
    world = record {
      square = v.square;
      few = v.few;
      state = v.state;
      store =
          with_pending_orders-IsStore made_store (surrendered_world player) (o ∷ os) (omega arith)
            (subst (All IsStaged) (sym e) (read_pending_orders-IsStaged st w v.store))
            (make_ref-IsStore st v.store);
      made = omega arith;
    };
  }

  stage-Staged : (o : Order) → IsStaged o → Staged st w o (stage st w o)
  unfolding stage mark_surrendered made_store surrendered_world
  stage-Staged (set_pipe player cell d) h = queue-Staged _ h refl
  stage-Staged (clear_pipe player cell d) h = queue-Staged _ h refl
  stage-Staged (set_pipes_exclusive player cell d) h = queue-Staged _ h refl
  stage-Staged (clear_all_pipes player cell) h = queue-Staged _ h refl
  stage-Staged (set_reserves player cell percent) h = queue-Staged _ h refl
  stage-Staged (paratroop player source target) h = queue-Staged _ h refl
  stage-Staged (gun player source target) h = queue-Staged _ h refl
  stage-Staged (surrender player) h = carry_queue-Staged player _ refl

  -- What a command that was validated as `r` leaves.
  unfoldable pub IsAnswer : Order → CommandResult → Applied → Type 0
  IsAnswer o ok out = (out.result ≡ ok) × Staged st w o (out.store, out.world)
  IsAnswer o (fail e) out = out ≡ record { store = st; world = w; result = fail e }

  apply_command-IsAnswer_at :
      (o : Order) (r : CommandResult)
      → validate_command w o ≡ r
      → IsAnswer o r (apply_command st w o)
  unfolding apply_command IsAnswer
  apply_command-IsAnswer_at o ok h =
      rw (h, apply_command) (refl, stage-Staged o (validate_command-IsStaged w o h))
  apply_command-IsAnswer_at o (fail e) h = rw (h, apply_command) refl

  -- On a well-formed world the command is refused with the error of its validation, and then neither
  -- the table nor the world changes; or it is accepted: any order but a surrender joins the end of the
  -- queue of the world, which is returned as it was, and a surrender returns a fresh world with the
  -- same state and queue. The queues of other worlds stay, and the world returned is well-formed.
  pub apply_command-IsAnswer :
      (o : Order) → IsAnswer o (validate_command w o) (apply_command st w o)
  apply_command-IsAnswer o = apply_command-IsAnswer_at o (validate_command w o) refl
