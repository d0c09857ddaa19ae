-- ===== src/Swiss/Pairing/Round.antt =====
-- Who plays in a round: the fallback, the first round and the bye of
-- backend/src/services/league/swissTournamentEngine.ts.
use Prim.Native.String.{String}
use fantasy_xi.Prelude.{
  ℕ, zero, suc, ◌≡◌, refl, ap, ◌+◌, ◌*◌, ◌-◌, ◌/◌, ◌≤◌, ◌%◌, true, Option, none, some, List, [],
  ◌∷◌, ◌++◌, map, inl, inr, Bool-cases, length, ltb, ◌==◌, ==_iff, append_assoc, append-nil, sym,
  subst, take,
}
use mathlib.Core.List.{Perm, perm_middle}
use mathlib.Core.List.Perm
use native.Mathlib.Omega.{arith}
use fantasy_xi.Prelude.Perms.{length-perm}
use fantasy_xi.Prelude.Dict.{Dict}
use fantasy_xi.Swiss.{Participant, Matchup}
use fantasy_xi.Swiss.Pairing.{
  Pair, repeats, best_opponent, greedy, greedy_pairing, or_greedy, pair_by_score_brackets,
  solve_backtrack_pairings, last_without_bye, last_player, bye_player, later_or_this, or_last, drop,
  zip, seeded_pairs, pairs_of_round, pair_matchup, pair_odd, pair_players,
}
use fantasy_xi.Swiss.Pairing.Sound.{flatten, solve_backtrack-IsFreshPairing}

abbrev pub away_name : Option String → List String
away_name none = []
away_name (some id) = id ∷ []

-- Who plays in some matchups.
abbrev pub names : List Matchup → List String
names [] = []
names (m ∷ matchups) = m.home_id ∷ away_name m.away_id ++ names matchups

names-pair_matchup :
    (round : ℕ) (pairs : List Pair)
    → names (map (pair_matchup round) pairs) ≡ map (λ p. p.id) (flatten pairs)
names-pair_matchup round [] = refl
names-pair_matchup round ((p, q) ∷ pairs) =
    ap (λ l. p.id ∷ q.id ∷ l) (names-pair_matchup round pairs)

move_best :
    (q best : Participant) (before after rest : List Participant)
    → Perm (q ∷ (before ++ best ∷ after) ++ rest) (best ∷ before ++ (after ++ q ∷ rest))
move_best q best before after rest =
    Perm.trans
      (Perm.cons q (
        subst (λ l. Perm l (best ∷ before ++ (after ++ rest)))
          (sym (append_assoc before (best ∷ after) rest)) (perm_middle before (after ++ rest))))
      (Perm.trans (Perm.swap best q (before ++ (after ++ rest))) (
        Perm.cons best (
          Perm.symm (
            subst (λ l. Perm l (q ∷ before ++ (after ++ rest)))
              (append_assoc before after (q ∷ rest))
              (subst (λ l. Perm ((before ++ after) ++ q ∷ rest) (q ∷ l))
                (append_assoc before after rest) (perm_middle (before ++ after) rest))))))

-- The best opponent and the players who remain.
abbrev pub both : Participant × List Participant → List Participant
both (p, players) = p ∷ players

best_opponent-perm :
    (p best : Participant) (before after rest : List Participant)
    → Perm (both (best_opponent p best before after rest)) (best ∷ before ++ (after ++ rest))
unfolding best_opponent
best_opponent-perm p best before after [] =
    rw (append-nil after) (Perm.refl (best ∷ before ++ after))
best_opponent-perm p best before after (q ∷ rest) =
    elim (Bool-cases (ltb (repeats p q) (repeats p best))) [
      | inl better ↦ rw better (
          Perm.trans (best_opponent-perm p q (before ++ best ∷ after) [] rest)
            (move_best q best before after rest))
      | inr worse ↦ rw worse (
          subst
            (λ l.
              Perm (both (best_opponent p best before (after ++ q ∷ []) rest)) (best ∷ before ++ l))
            (append_assoc after (q ∷ []) rest)
            (best_opponent-perm p best before (after ++ q ∷ []) rest))
    ]

last_player-perm :
    (p : Participant) (players : List Participant)
    → Perm (both (last_player p players)) (p ∷ players)
unfolding last_player
last_player-perm p [] = Perm.refl (p ∷ [])
last_player-perm p (q ∷ players) =
    Perm.trans (Perm.swap p (last_player q players).0 (last_player q players).1)
      (Perm.cons p (last_player-perm q players))

-- The player found, if any, and the others.
abbrev IsSplit : List Participant → Option (Participant × List Participant) → Type 0
IsSplit players none = Unit
IsSplit players (some found) = Perm (both found) players

later_or_this-IsSplit :
    (p : Participant) (players : List Participant) (later : Option (Participant × List Participant))
    → IsSplit players later
    → IsSplit (p ∷ players) (later_or_this p players later)
unfolding later_or_this
later_or_this-IsSplit p players (some (found, rest)) h =
    Perm.trans (Perm.swap p found rest) (Perm.cons p h)
later_or_this-IsSplit p players none h = elim (Bool-cases (p.byes == 0)) [
  | inl without ↦ rw without (Perm.refl (p ∷ players))
  | inr with_bye ↦ rw with_bye tt
]

last_without_bye-IsSplit : (players : List Participant) → IsSplit players (last_without_bye players)
unfolding last_without_bye
last_without_bye-IsSplit [] = tt
last_without_bye-IsSplit (p ∷ players) =
    later_or_this-IsSplit p players (last_without_bye players) (last_without_bye-IsSplit players)

or_last-perm :
    (p : Participant) (players : List Participant) (found : Option (Participant × List Participant))
    → IsSplit (p ∷ players) found
    → Perm (both (or_last p players found)) (p ∷ players)
or_last-perm p players none h = last_player-perm p players
or_last-perm p players (some found) h = h

pub bye_player-perm :
    (p : Participant) (players : List Participant)
    → Perm ((bye_player p players).0 ∷ (bye_player p players).1) (p ∷ players)
unfolding bye_player
bye_player-perm p players =
    or_last-perm p players (last_without_bye (p ∷ players)) (last_without_bye-IsSplit (p ∷ players))

greedy-perm :
    (fuel : ℕ) (players : List Participant) (n : ℕ)
    → length players ≡ 2 * n
    → length players ≤ fuel
    → Perm (flatten (greedy fuel players)) players
unfolding greedy
greedy-perm zero [] n even enough = Perm.nil
greedy-perm zero (p ∷ players) n even enough = ground arith
greedy-perm (suc fuel) [] n even enough = Perm.nil
greedy-perm (suc fuel) (p ∷ []) n even enough = ground arith
greedy-perm (suc fuel) (p ∷ q ∷ rest) n even enough =
    let found = best_opponent p q [] [] rest in
    let best : Perm (both found) (q ∷ rest) = best_opponent-perm p q [] [] rest in
    let same : length (both found) ≡ length (q ∷ rest) = length-perm (both found) (q ∷ rest) best in
    Perm.cons p (
      Perm.trans (Perm.cons found.0 (greedy-perm fuel found.1 (n - 1) (omega arith) (omega arith)))
        best)

take-drop : (n : ℕ) (players : List Participant) → take n players ++ drop n players ≡ players
take-drop zero players = refl
take-drop (suc n) [] = refl
take-drop (suc n) (p ∷ players) = ap (λ l. p ∷ l) (take-drop n players)

length-take_half :
    (n k : ℕ) (players : List Participant)
    → length players ≡ n + k
    → (length (take n players) ≡ n) × (length (drop n players) ≡ k)
length-take_half zero k players h = (refl, omega arith)
length-take_half (suc n) k [] h = ground arith
length-take_half (suc n) k (p ∷ players) h = ground (arith, length-take_half n k players)

flatten-zip :
    (xs ys : List Participant) → length xs ≡ length ys → Perm (flatten (zip xs ys)) (xs ++ ys)
flatten-zip [] [] h = Perm.nil
flatten-zip [] (y ∷ ys) h = ground arith
flatten-zip (x ∷ xs) [] h = ground arith
flatten-zip (x ∷ xs) (y ∷ ys) h =
    Perm.cons x
      (Perm.trans (Perm.cons y (flatten-zip xs ys (omega arith))) (Perm.symm (perm_middle xs ys)))

seeded_pairs-perm :
    (n : ℕ) (players : List Participant)
    → length players ≡ 2 * n
    → Perm (flatten (seeded_pairs players)) players
unfolding seeded_pairs
seeded_pairs-perm n players even =
    let halves = length-take_half (length players / 2) n players (omega arith) in
    subst (Perm (flatten (seeded_pairs players))) (take-drop (length players / 2) players) (
      flatten-zip (take (length players / 2) players) (drop (length players / 2) players)
        (omega arith))

or_greedy-perm :
    (n : ℕ) (players : List Participant) (pairs : Option (List Pair))
    → length players ≡ 2 * n
    → solve_backtrack_pairings players ≡ pairs
    → Perm (flatten (or_greedy players pairs)) players
unfolding greedy_pairing solve_backtrack_pairings
or_greedy-perm n players none even e = greedy-perm (length players) players n even (omega arith)
or_greedy-perm n players (some pairs) even e =
    (solve_backtrack-IsFreshPairing (suc (length players)) players pairs e).0

pairs_of_round-perm :
    (n round : ℕ) (players : List Participant)
    → length players ≡ 2 * n
    → Perm (flatten (pairs_of_round round players)) players
unfolding pairs_of_round pair_by_score_brackets
pairs_of_round-perm n round players even = elim (Bool-cases (round == 1)) [
  | inl first_round ↦ rw first_round (seeded_pairs-perm n players even)
  | inr later ↦ rw later (or_greedy-perm n players (solve_backtrack_pairings players) even refl)
]

abbrev ids : List Participant → List String
ids = map (λ p. p.id)

matchups-perm :
    (n round : ℕ) (players : List Participant)
    → length players ≡ 2 * n
    → Perm (names (map (pair_matchup round) (pairs_of_round round players))) (ids players)
matchups-perm n round players even =
    subst (λ l. Perm l (ids players))
      (sym (names-pair_matchup round (pairs_of_round round players)))
      (Perm.map (λ p. p.id) (pairs_of_round-perm n round players even))

pair_odd-perm :
    (round : ℕ) (p : Participant) (players : List Participant) (m : Dict String Participant)
    → (length (p ∷ players) % 2 == 1) ≡ true
    → Perm (names (pair_odd round p players m).0) (ids (p ∷ players))
unfolding pair_odd
pair_odd-perm round p players m odd =
    let found = bye_player p players in
    let split : Perm (both found) (p ∷ players) = bye_player-perm p players in
    let same : length (both found) ≡ length (p ∷ players) =
      length-perm (both found) (p ∷ players) split in
    let rest : Perm (names (map (pair_matchup round) (pairs_of_round round found.1)))
        (ids found.1) =
      matchups-perm (length players / 2) round found.1
        (omega (arith, (==_iff (length (p ∷ players) % 2) 1).0 odd)) in
    Perm.trans (Perm.cons found.0.id rest) (Perm.map (λ q. q.id) split)

-- In every round, the first, a later one that the search pairs and one that falls back on repeats,
-- everyone plays exactly once: the sides of the matchups, the player with a bye among them, are the
-- players in some order.
pub pair_players-perm :
    (round : ℕ) (players : List Participant) (m : Dict String Participant)
    → Perm (names (pair_players round players m).0) (map (λ p. p.id) players)
unfolding pair_players
pair_players-perm round [] m = matchups-perm 0 round [] refl
pair_players-perm round (p ∷ players) m = elim (Bool-cases (length (p ∷ players) % 2 == 1)) [
  | inl odd ↦ rw odd (pair_odd-perm round p players m odd)
  | inr even ↦ rw even (matchups-perm (length (p ∷ players) / 2) round (p ∷ players) (ground arith))
]
