-- ===== src/Matchmaking/Lifecycle/History.antt =====
-- The life of a match: seats are added while it fills, and its transitions follow.
use europa_neo.Prelude.{
  ℕ, ◌+◌, ◌≤◌, ◌<◌, ◌≡◌, refl, sym, arith, Option, some, List, [], ◌∷◌, length, subst, ap,
}
use europa_neo.Engine.Run.{Match}
use europa_neo.Matchmaking.Types.{
  Text, Visibility, MatchStatus, filling, MatchSettings, MatchResultsRecord, PlayerSession,
  MatchRecord, MatchStatusChanged,
}
use europa_neo.Matchmaking.Lifecycle.{
  create_match_record_with_creator, add_seat_to_filling_match, transition_filling_to_running,
  transition_running_to_finished, transition_to_collected,
}
use europa_neo.Matchmaking.Lifecycle.Invariant.{
  create_match_record_with_creator-IsRecord, progress, HasFields, IsRecord, IsMove, starts-IsMove,
  finishes-IsMove, collects-IsMove,
}

pub data Change : MatchRecord → MatchRecord × MatchStatusChanged → Type 0 where
  starts :
      (m : MatchRecord) (session : Match) (at_ms : ℕ) (out : MatchRecord × MatchStatusChanged)
      → transition_filling_to_running m session at_ms ≡ some out
      → Change m out
  finishes :
      (m : MatchRecord) (results : MatchResultsRecord) (at_ms : ℕ)
      (out : MatchRecord × MatchStatusChanged)
      → transition_running_to_finished m results at_ms ≡ some out
      → Change m out
  collects :
      (m : MatchRecord) (at_ms : ℕ) (results : Option MatchResultsRecord)
      (out : MatchRecord × MatchStatusChanged)
      → transition_to_collected m at_ms results ≡ some out
      → Change m out

-- The events of a life, the last first.
pub data Life : MatchRecord → List MatchStatusChanged → MatchRecord → Type 0 where
  created : (m : MatchRecord) → Life m [] m
  joined :
      (m n : MatchRecord) (es : List MatchStatusChanged) (joiner : PlayerSession)
      (seat_index now_ms : ℕ) (token : Text)
      → Life m es n
      → n.status ≡ filling
      → Life m es (add_seat_to_filling_match n joiner seat_index now_ms token).match
  moved :
      (m n : MatchRecord) (es : List MatchStatusChanged) (out : MatchRecord × MatchStatusChanged)
      → Life m es n
      → Change n out
      → Life m (out.1 ∷ es) out.0

-- Each event starts from the state in which the one before it ended, at a later progress.
abbrev pub IsChain : MatchStatus → List MatchStatusChanged → MatchStatus → Type 0
IsChain first [] last = first ≡ last
IsChain first (e ∷ es) last =
    (e.to ≡ last)
    × ((s : MatchStatus) × (e.from ≡ some s) × (progress s < progress e.to) × IsChain first es s)

Change-IsMove :
    {m : MatchRecord} {out : MatchRecord × MatchStatusChanged}
    → Change m out
    → IsMove m out.0.status out
Change-IsMove (starts m session at_ms out e) =
    let v = starts-IsMove m session at_ms out e in
    subst (λ (s : MatchStatus). IsMove m s out) (sym v.reached) v
Change-IsMove (finishes m results at_ms out e) =
    let v = finishes-IsMove m results at_ms out e in
    subst (λ (s : MatchStatus). IsMove m s out) (sym v.reached) v
Change-IsMove (collects m at_ms results out e) =
    let v = collects-IsMove m at_ms results out e in
    subst (λ (s : MatchStatus). IsMove m s out) (sym v.reached) v

Life-IsRecord :
    {m n : MatchRecord} {es : List MatchStatusChanged} → Life m es n → IsRecord m → IsRecord n
unfolding add_seat_to_filling_match
Life-IsRecord (created m) h = h
Life-IsRecord (joined m n es joiner seat_index now_ms token life open_) h =
    subst
      (λ (s : MatchStatus).
        HasFields s (add_seat_to_filling_match n joiner seat_index now_ms token).match)
      (sym open_)
      (let f : HasFields filling n =
          subst (λ (s : MatchStatus). HasFields s n) open_ (Life-IsRecord life h) in
        (f.0, f.1, f.2, f.3, f.4))
Life-IsRecord (moved m n es out life change) h =
    (Change-IsMove change).fields (Life-IsRecord life h)

Life-IsChain :
    {m n : MatchRecord} {es : List MatchStatusChanged} → Life m es n → IsChain m.status es n.status
unfolding add_seat_to_filling_match
Life-IsChain (created m) = refl
Life-IsChain (joined m n es joiner seat_index now_ms token life open_) = Life-IsChain life
Life-IsChain (moved m n es out life change) =
    let v = Change-IsMove change in
    (v.told_to, (n.status, v.told_from, rw v.told_to v.rises, Life-IsChain life))

chain-length :
    (first last : MatchStatus) (es : List MatchStatusChanged)
    → IsChain first es last
    → progress first + length es ≤ progress last
chain-length first last [] h = rw h (omega arith)
chain-length first last (e ∷ es) h =
    let below = chain-length first h.1.0 es h.1.3 in
    let top : progress e.to ≡ progress last = ap progress h.0 in omega (arith, h.1.2)

progress-le : (s : MatchStatus) → progress s ≤ 3
progress-le s = ground arith

-- A match that is created and changed by the lifecycle's operations, in any order in which they do not
-- throw, has the fields of its state, its events form a chain from filling to its state in which every
-- event goes to a later state, and there are at most three of them.
pub Life-IsOrdered :
    (settings : MatchSettings) (visibility : Visibility) (creator : PlayerSession) (now_ms : ℕ)
    (match_id token : Text) (n : MatchRecord) (es : List MatchStatusChanged)
    → Life
        (create_match_record_with_creator settings visibility creator now_ms match_id token).match
        es
        n
    → IsRecord n × IsChain filling es n.status × (length es ≤ 3)
Life-IsOrdered settings visibility creator now_ms match_id token n es life =
    let (fields, open_) =
      create_match_record_with_creator-IsRecord settings visibility creator now_ms match_id token in
    let chain = subst (λ (s : MatchStatus). IsChain s es n.status) open_ (Life-IsChain life) in
    (
      Life-IsRecord life fields,
      chain,
      omega (arith, chain-length filling n.status es chain, progress-le n.status),
    )
