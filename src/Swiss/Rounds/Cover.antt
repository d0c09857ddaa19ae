-- ===== src/Swiss/Rounds/Cover.antt =====
-- What a new round holds: generateNextRound of
-- backend/src/services/league/swissTournamentEngine.ts.
use mathlib.Core.List.{Perm}
use mathlib.Core.List.Perm
use Prim.Native.String.{String}
use native.Mathlib.Omega.{arith}
use fantasy_xi.Prelude.{
  ℕ, ◌+◌, ◌≤◌, ◌≡◌, refl, subst, Bool, [], ◌∷◌, ◌++◌, inl, inr, Bool-cases, ltb,
}
use fantasy_xi.Prelude.Dict.{Dict}
use fantasy_xi.Swiss.{Participant, Tournament, SwissRound, Outcome, ok, throws, get_current_round}
use fantasy_xi.Swiss.Standings.{recompute_standings, get_standings}
use fantasy_xi.Swiss.Standings.Keep.{
  keys, Kept, IsBalanced, recompute_standings-IsBalanced, get_standings-IsBalanced,
}
use fantasy_xi.Swiss.Standings.Names.{
  recompute_standings-keys, get_standings-perm, recompute_standings-any,
}
use fantasy_xi.Swiss.Pairing.Round.{names, pair_players-perm}
use fantasy_xi.Swiss.Pairing.Balance.{pair_players-IsBalanced}
use fantasy_xi.Swiss.Rounds.{compute_pairings, generate_next_round, blocked_by, is_over}

module _ (locale_le : String → String → Bool) where
  compute_pairings-perm :
      (number : ℕ) (m : Dict String Participant)
      → Kept (λ p. Unit) m
      → Perm (names (compute_pairings locale_le number m).0) (keys m)
  unfolding compute_pairings
  compute_pairings-perm number m kept =
      Perm.trans
        (pair_players-perm number (get_standings locale_le m) (recompute_standings locale_le m))
        (get_standings-perm locale_le m kept)

  compute_pairings-IsBalanced :
      (number : ℕ) (m : Dict String Participant)
      → Kept IsBalanced m
      → Kept IsBalanced (compute_pairings locale_le number m).1
  unfolding compute_pairings
  compute_pairings-IsBalanced number m kept =
      pair_players-IsBalanced number (get_standings locale_le m) (recompute_standings locale_le m)
        (get_standings-IsBalanced locale_le m kept)
        (recompute_standings-IsBalanced locale_le m kept)

  abbrev pub IsNewRound : Tournament → Tournament × Outcome SwissRound → Type 0
  IsNewRound t (next, throws error) =
      (next.participants ≡ t.participants) × (next.rounds ≡ t.rounds)
  IsNewRound t (next, ok round) =
      (round.round_number ≡ t.current_round + 1)
      × (next.current_round ≡ t.current_round + 1)
      × (t.current_round + 1 ≤ t.total_rounds)
      × (next.rounds ≡ t.rounds ++ round ∷ [])
      × Perm (names round.matchups) (keys t.participants)

  -- For participants kept under their own identifiers: an error leaves the participants and the rounds
  -- as they are; a round that is made is the next, is within the number of rounds, is put after the
  -- others, and everyone plays in it once, where a bye counts as playing.
  pub generate_next_round-IsNewRound :
      (t : Tournament) (gameweek_id : ℕ)
      → Kept (λ p. Unit) t.participants
      → IsNewRound t (generate_next_round locale_le t gameweek_id)
  unfolding generate_next_round
  generate_next_round-IsNewRound t gameweek_id kept = elim (Bool-cases (is_over t.status)) [
    | inl over ↦ rw over (refl, refl)
    | inr going ↦ elim (Bool-cases (blocked_by t.status (get_current_round t))) [
      | inl blocked ↦ rw (going, blocked) (refl, refl)
      | inr free ↦ elim (Bool-cases (ltb t.total_rounds (t.current_round + 1))) [
        | inl last ↦ rw (going, free, last) (refl, refl)
        | inr within ↦
            rw (going, free, within)
              (
                refl,
                refl,
                ground arith,
                refl,
                subst
                    (Perm (
                      names
                        (compute_pairings locale_le (t.current_round + 1)
                          (recompute_standings locale_le t.participants)).0))
                    (recompute_standings-keys locale_le (λ p. Unit) t.participants kept)
                    (compute_pairings-perm (t.current_round + 1)
                      (recompute_standings locale_le t.participants)
                      (recompute_standings-any locale_le t.participants kept)),
              )
      ]
    ]
  ]

  pub generate_next_round-IsBalanced :
      (t : Tournament) (gameweek_id : ℕ)
      → Kept IsBalanced t.participants
      → Kept IsBalanced (generate_next_round locale_le t gameweek_id).0.participants
  unfolding generate_next_round
  generate_next_round-IsBalanced t gameweek_id kept = ground (
    arith,
    compute_pairings-IsBalanced (t.current_round + 1) (recompute_standings locale_le t.participants)
        (recompute_standings-IsBalanced locale_le t.participants kept),
  )
