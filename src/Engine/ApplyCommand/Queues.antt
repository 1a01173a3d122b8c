-- ===== src/Engine/ApplyCommand/Queues.antt =====
-- The queues of pending orders.
use europa_neo.Prelude.{
  ◌≢◌, ==→≡, if-elim, ℕ, All-map, if-elim, ◌+◌, ◌≤◌, ◌<◌, ◌≡◌, refl, sym, arith, List, [], ◌∷◌, All,
  true, ◌==◌,
}
use europa_neo.Engine.Types.{
  World, Order, gun, set_pipe, clear_pipe, set_pipes_exclusive, clear_all_pipes, set_reserves,
  paratroop, surrender,
}
use europa_neo.Engine.Validate.{percent_in_range}
use europa_neo.Engine.ApplyCommand.{Store, lookup_queue, read_pending_orders, with_pending_orders}

-- What `validateCommand` ensures of a staged order on which the state depends.
abbrev pub IsStaged : Order → Type 0
IsStaged (set_reserves _ _ percent) = percent_in_range percent ≡ true
IsStaged (set_pipe _ _ _) = Unit
IsStaged (clear_pipe _ _ _) = Unit
IsStaged (set_pipes_exclusive _ _ _) = Unit
IsStaged (clear_all_pipes _ _) = Unit
IsStaged (paratroop _ _ _) = Unit
IsStaged (gun _ _ _) = Unit
IsStaged (surrender _) = Unit

-- The queues of the store hold acceptable orders, under the identities made so far.
pub record IsStore (st : Store) : Type 0 where
  pub staged : All (λ (q : ℕ × List Order). All IsStaged q.1) st.queues
  pub made : All (λ (q : ℕ × List Order). q.0 < st.next_ref) st.queues

lookup_queue-IsStaged :
    (ref : ℕ) (q : List (ℕ × List Order))
    → All (λ (q : ℕ × List Order). All IsStaged q.1) q
    → All IsStaged (lookup_queue ref q)
lookup_queue-IsStaged ref [] h = tt
lookup_queue-IsStaged ref ((r, os) ∷ q) h =
    if-elim (All IsStaged) (r == ref) (λ _. h.0) (λ _. lookup_queue-IsStaged ref q h.1)

pub read_pending_orders-IsStaged :
    (st : Store) (w : World) → IsStore st → All IsStaged (read_pending_orders st w)
unfolding read_pending_orders
read_pending_orders-IsStaged st w h = lookup_queue-IsStaged w.ref st.queues h.staged

pub with_pending_orders-IsStore :
    (st : Store) (w : World) (orders : List Order)
    → w.ref < st.next_ref
    → All IsStaged orders
    → IsStore st
    → IsStore (with_pending_orders st w orders)
unfolding with_pending_orders
with_pending_orders-IsStore st w orders lt staged h = record {
  staged = (staged, h.staged);
  made = (lt, h.made);
}

-- The next identity may be taken.
pub make_ref-IsStore :
    (st : Store) → IsStore st → IsStore (record st { next_ref = st.next_ref + 1 })
make_ref-IsStore st h = record {
  staged = h.staged;
  made =
      All-map {P = λ (q : ℕ × List Order). q.0 < st.next_ref} (λ q lt. omega arith) st.queues
        h.made;
}

pub read-with_pending_orders :
    (st : Store) (w : World) (orders : List Order)
    → read_pending_orders (with_pending_orders st w orders) w ≡ orders
unfolding read_pending_orders with_pending_orders
read-with_pending_orders st w orders =
    if-elim (λ (q : List Order). q ≡ orders) (w.ref == w.ref) (λ _. refl) (λ other. ground arith)

pub lookup_queue-fresh :
    (ref bound : ℕ) (q : List (ℕ × List Order))
    → All (λ (q : ℕ × List Order). q.0 < bound) q
    → bound ≤ ref
    → lookup_queue ref q ≡ []
lookup_queue-fresh ref bound [] h le = refl
lookup_queue-fresh ref bound ((r, os) ∷ q) h le =
    if-elim (λ (o : List Order). o ≡ []) (r == ref) (λ same. absurd (ground (arith, h.0)))
      (λ _. lookup_queue-fresh ref bound q h.1 le)

-- A write under one identity leaves the queues of the others.
pub lookup_queue-other :
    (st : Store) (w : World) (orders : List Order) (ref : ℕ)
    → ref ≢ w.ref
    → lookup_queue ref (with_pending_orders st w orders).queues ≡ lookup_queue ref st.queues
unfolding with_pending_orders
lookup_queue-other st w orders ref ne =
    if-elim (λ (o : List Order). o ≡ lookup_queue ref st.queues) (w.ref == ref)
      (λ same. absurd (ne (sym (==→≡ w.ref ref same)))) (λ _. refl)
