-- ===== src/Matchmaking/Rematch/Votes.antt =====
-- Accept votes of eligible voters on an offer.
use europa_neo.Prelude.{
  ℕ, ◌≡◌, refl, sym, arith, ◌↔◌, inl, inr, true, false, Bool-cases, List, [], ◌∷◌, ◌++◌, Memᴰ,
  length, Distinct, Within, length-Within-le, ==→≡, ≡→==, ◌==◌,
}
use mathlib.Core.List.Memᴰ
use europa_neo.Core.PlayerId.{eq_id}
use europa_neo.Engine.Registry.Checks.{eq_id_refl, eq_id_sound}
use europa_neo.Matchmaking.OrderedMap.{values}
use europa_neo.Matchmaking.Types.{Text, RematchOffer, MatchRecord}
use europa_neo.Matchmaking.Rematch.{
  has, session_ids, eligible, already_voted, open_rematch_window, classify_voter_eligibility,
  cast_accept_vote,
}

has_sound : (xs : List Text) (id : Text) → has xs id ≡ true → Memᴰ id xs
has_sound [] id e = absurd (cc)
has_sound (x ∷ xs) id e = elim (Bool-cases (eq_id x id)) [
  | inl same ↦ Memᴰ.head (sym (eq_id_sound x id same))
  | inr other ↦ Memᴰ.tail (has_sound xs id (ground arith))
]

has_complete : (xs : List Text) (id : Text) → Memᴰ id xs → has xs id ≡ true
has_complete [] id m = elim m [ ]
has_complete (x ∷ xs) id (Memᴰ.head e) = rw (e, eq_id_refl x) refl
has_complete (x ∷ xs) id (Memᴰ.tail m) = let rest = has_complete xs id m in ground arith

Distinct-append :
    (xs : List Text) (id : Text) → (Memᴰ id xs → ⊥) → Distinct xs → Distinct (xs ++ id ∷ [])
Distinct-append [] id out d = (λ m. elim m [ ], tt)
Distinct-append (x ∷ xs) id out d = (
  λ m. elim (Memᴰ.append_cases xs m) [
    | inl old ↦ d.0 old
    | inr new ↦ out (Memᴰ.head (sym (Memᴰ.eq_of_singleton new)))
  ],
  Distinct-append xs id (λ m. out (Memᴰ.tail m)) d.1,
)

-- The votes so far: without repetitions, of participants.
pub record IsPoll (offer : RematchOffer) : Type 0 where
  pub participants : Distinct offer.all_original_player_ids
  pub once : Distinct offer.accepted_by
  pub invited : Within offer.accepted_by offer.all_original_player_ids

eligible_of :
    (offer : RematchOffer) (voter : Text)
    → classify_voter_eligibility offer voter ≡ eligible
    → (has offer.accepted_by voter ≡ false) × (has offer.all_original_player_ids voter ≡ true)
unfolding classify_voter_eligibility
eligible_of offer voter e = ground arith

voted : (xs : List Text) (id : Text) → has (xs ++ id ∷ []) id ≡ true
voted xs id = has_complete (xs ++ id ∷ []) id (Memᴰ.append_right xs (Memᴰ.head refl))

-- Distinct voters, all of them invited, are everyone exactly if they are as many.
everyone :
    (voters invited : List Text)
    → Distinct voters
    → Distinct invited
    → Within voters invited
    → ((length voters == length invited) ≡ true) ↔ Within invited voters
everyone voters invited dv di w = (
  λ same a m. elim (Bool-cases (has voters a)) [
    | inl there ↦ has_sound voters a there
    | inr missing ↦ absurd (
        omega (
          arith,
          ==→≡ (length voters) (length invited) same,
          length-Within-le (a ∷ voters) invited
              (λ i. let there : has voters a ≡ true = has_complete voters a i in absurd (cc), dv)
              (λ b i. elim (Memᴰ.cases_cons i) [
                | inl first ↦ Memᴰ.cast first m
                | inr later ↦ w b later
              ]),
        ))
  ],
  λ all.
      ≡→== (length voters) (length invited) (
        omega
          (arith, length-Within-le voters invited dv w, length-Within-le invited voters di all)),
)

-- After the accept vote of an eligible voter the poll is in order, and the vote completes the offer
-- exactly if every participant has accepted.
pub cast_accept_vote-Completes :
    (offer : RematchOffer) (voter : Text)
    → IsPoll offer
    → classify_voter_eligibility offer voter ≡ eligible
    → let out = cast_accept_vote offer voter in
      IsPoll out.0
      × Memᴰ voter out.0.accepted_by
      × ((out.1 ≡ true) ↔ Within out.0.all_original_player_ids out.0.accepted_by)
      × (classify_voter_eligibility out.0 voter ≡ already_voted)
unfolding cast_accept_vote classify_voter_eligibility
cast_accept_vote-Completes offer voter p e =
    let (fresh, invited) = eligible_of offer voter e in
    let once =
      Distinct-append offer.accepted_by voter
        (λ m.
          let there : has offer.accepted_by voter ≡ true = has_complete _ voter m in absurd (cc))
        p.once in
    let within : Within (offer.accepted_by ++ voter ∷ []) offer.all_original_player_ids = λ a m.
      elim (Memᴰ.append_cases offer.accepted_by m) [
        | inl old ↦ p.invited a old
        | inr new ↦ Memᴰ.cast (Memᴰ.eq_of_singleton new) (has_sound _ voter invited)
      ] in
    rw (fresh, voted offer.accepted_by voter)
      (
        record { participants = p.participants; once = once; invited = within },
        Memᴰ.append_right offer.accepted_by (Memᴰ.head refl),
        everyone (offer.accepted_by ++ voter ∷ []) offer.all_original_player_ids once p.participants
            within,
        refl,
      )

-- A window that opens has no votes yet.
pub open_rematch_window-IsPoll :
    (m : MatchRecord) (offer_id : Text) (now_ms window_ms : ℕ)
    → Distinct (session_ids (values m.seats))
    → IsPoll (open_rematch_window m offer_id now_ms window_ms)
unfolding open_rematch_window
open_rematch_window-IsPoll m offer_id now_ms window_ms d = record {
  participants = d;
  once = tt;
  invited = λ a i. elim i [ ];
}
