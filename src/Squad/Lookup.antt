-- ===== src/Squad/Lookup.antt =====
-- The id checks of the validator and its reads of the player map.
use fantasy_xi.Prelude.{
  ℕ, ◌+◌, ◌≤◌, ◌≡◌, ◌≢◌, ◌↔◌, inl, inr, refl, true, false, ◌||◌, Option, Option-cases, none, some,
  List, [], ◌∷◌, ◌++◌, length, length-append, All, ◌==◌, arith,
}
use fantasy_xi.Prelude.Dict.{Dict, get, set, get-set, nat_eq, has}
use fantasy_xi.Squad.{
  SquadPlayerSelection, PlayerForValidation, ids, includes, set_from, player_map_from, missing,
  resolve,
}
use fantasy_xi.Squad.Legal.{AreDistinct, last_match, AreFound}

length-set_from-le : (seen xs : List ℕ) → length (set_from seen xs) ≤ length seen + length xs
unfolding set_from
length-set_from-le seen [] = omega arith
length-set_from-le seen (x ∷ xs) = ground (
  arith,
  length-set_from-le seen xs,
  length-set_from-le (seen ++ x ∷ []) xs,
  length-append seen (x ∷ []),
)

includes-append :
    (seen : List ℕ) (x y : ℕ) → includes (seen ++ x ∷ []) y ≡ (includes seen y || x == y)
includes-append [] x y = ground arith
includes-append (z ∷ seen) x y = ground (arith, includes-append seen x y)

All-includes-append :
    (seen : List ℕ) (x : ℕ) (xs : List ℕ)
    → All (λ y. includes (seen ++ x ∷ []) y ≡ false) xs
      ↔ (All (λ y. includes seen y ≡ false) xs × All (λ y. x ≢ y) xs)
All-includes-append seen x [] = ground arith
All-includes-append seen x (y ∷ xs) =
    ground (arith, All-includes-append seen x xs, includes-append seen x y)

-- A set is as long as the list that it was built from exactly if the list repeats nothing.
pub length-set_from_iff :
    (seen xs : List ℕ)
    → (length (set_from seen xs) ≡ length seen + length xs)
      ↔ (All (λ y. includes seen y ≡ false) xs × AreDistinct xs)
unfolding set_from
length-set_from_iff seen [] = ground arith
length-set_from_iff seen (x ∷ xs) = ground (
  arith,
  length-set_from-le seen xs,
  length-set_from_iff (seen ++ x ∷ []) xs,
  length-append seen (x ∷ []),
  All-includes-append seen x xs,
)

All-unseen : (xs : List ℕ) → All (λ y. includes [] y ≡ false) xs
All-unseen [] = tt
All-unseen (x ∷ xs) = (refl, All-unseen xs)

pub AreDistinct-iff : (xs : List ℕ) → (length (set_from [] xs) ≡ length xs) ↔ AreDistinct xs
AreDistinct-iff xs = ground (arith, length-set_from_iff [] xs, All-unseen xs)

-- The map answers with the last player of that id.
abbrev or_else :
    Option PlayerForValidation → Option PlayerForValidation → Option PlayerForValidation
or_else none b = b
or_else (some a) b = some a

get-player_map_from :
    (m : Dict ℕ PlayerForValidation) (ps : List PlayerForValidation) (id : ℕ)
    → get (player_map_from m ps) id ≡ or_else (last_match ps id) (get m id)
unfolding player_map_from last_match
get-player_map_from m [] id = refl
get-player_map_from m (p ∷ ps) id =
    ground (arith, get-player_map_from (set m p.id p) ps id, get-set m p.id id p)

pub get-player_map :
    (ps : List PlayerForValidation) (id : ℕ) → get (player_map_from [] ps) id ≡ last_match ps id
unfolding get
get-player_map ps id = ground (arith, get-player_map_from [] ps id)

module _ (players : List PlayerForValidation) where
  abbrev pub player_map : Dict ℕ PlayerForValidation
  player_map = player_map_from [] players

  pub resolve-AreFound :
      (ss : List SquadPlayerSelection) (ps : List PlayerForValidation)
      → (resolve player_map ss ≡ some ps) ↔ AreFound players ss ps
  unfolding resolve
  resolve-AreFound [] [] = ground arith
  resolve-AreFound [] (p ∷ ps) = ground arith
  resolve-AreFound (s ∷ ss) [] = ground (arith, get-player_map players s.player_id)
  resolve-AreFound (s ∷ ss) (p ∷ ps) =
      ground (arith, get-player_map players s.player_id, resolve-AreFound ss ps)

  abbrev pub IsKnown : SquadPlayerSelection → Type 0
  IsKnown s = has player_map s.player_id ≡ true

  pub missing_iff :
      (ss : List SquadPlayerSelection) → (missing player_map (ids ss) ≡ []) ↔ All IsKnown ss
  unfolding missing
  missing_iff [] = ground arith
  missing_iff (s ∷ ss) = ground (arith, missing_iff ss)

  -- Where every id is known, every selection is read from the map.
  pub resolve_total :
      (ss : List SquadPlayerSelection)
      → All IsKnown ss
      → (ps : List PlayerForValidation) × (resolve player_map ss ≡ some ps)
  unfolding resolve
  resolve_total [] h = ([], refl)
  resolve_total (s ∷ ss) h =
      let (ps, rest) = resolve_total ss h.1 in
      elim (Option-cases (get player_map s.player_id)) [
        | inl absent ↦ absurd (unknown s absent h.0)
        | inr (p, found) ↦ (p ∷ ps, rw (found, resolve) (rw (rest, resolve) refl))
      ]
    where
      unknown : (s : SquadPlayerSelection) → get player_map s.player_id ≡ none → ¬ IsKnown s
      unknown s absent known = ground arith

  pub resolve-IsKnown :
      (ss : List SquadPlayerSelection) (ps : List PlayerForValidation)
      → resolve player_map ss ≡ some ps
      → All IsKnown ss
  unfolding resolve
  resolve-IsKnown [] ps e = tt
  resolve-IsKnown (s ∷ ss) [] e = ground arith
  resolve-IsKnown (s ∷ ss) (p ∷ ps) e = ground (arith, resolve-IsKnown ss ps)
