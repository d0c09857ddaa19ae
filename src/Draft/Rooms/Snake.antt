-- ===== src/Draft/Rooms/Snake.antt =====
-- The order of turns: the manager's list and the service's rule agree.
use Prim.Native.String.{String}
use native.Mathlib.Nat.{div-eq_of_lt, mod-eq_of_lt, add-div_left, add-mod_left}
use fantasy_xi.Prelude.{
  ℕ, zero, suc, ◌+◌, ◌-◌, ◌*◌, ◌/◌, ◌%◌, ◌<◌, ◌≡◌, refl, sym, ap, subst, ◌∙◌, Bool-cases, inl, inr,
  Option, some, List, [], ◌∷◌, ◌++◌, arith, ltb, ◌==◌, if◌then◌else◌, length, get_elem?,
  length-append,
}
use fantasy_xi.Draft.{round_of, snake_turn}
use fantasy_xi.Draft.Rooms.{Turn, turns, reverse, snake_rounds, build_snake_pick_order}

length-turns :
    (round number : ℕ) (squads : List String) → length (turns round number squads) ≡ length squads
unfolding turns
length-turns round number [] = refl
length-turns round number (x ∷ squads) = ap suc (length-turns round (number + 1) squads)

length-reverse : (squads : List String) → length (reverse squads) ≡ length squads
length-reverse [] = refl
length-reverse (x ∷ squads) =
    omega (arith, length-append (reverse squads) (x ∷ []), length-reverse squads)

module _ {A : Type 0} where
  at_same : (xs : List A) (i j : ℕ) → i ≡ j → get_elem? xs i ≡ get_elem? xs j
  at_same xs i j e = ap (get_elem? xs) e

  get_elem?-left :
      (xs ys : List A) (i : ℕ) → i < length xs → get_elem? (xs ++ ys) i ≡ get_elem? xs i
  get_elem?-left [] ys i h = ground arith
  get_elem?-left (x ∷ xs) ys zero h = refl
  get_elem?-left (x ∷ xs) ys (suc i) h = get_elem?-left xs ys i (omega arith)

  get_elem?-right : (xs ys : List A) (i : ℕ) → get_elem? (xs ++ ys) (length xs + i) ≡ get_elem? ys i
  get_elem?-right [] ys i = at_same ys (0 + i) i (omega arith)
  get_elem?-right (x ∷ xs) ys i =
      at_same (x ∷ (xs ++ ys)) (suc (length xs) + i) (suc (length xs + i)) (omega arith)
      ∙ get_elem?-right xs ys i

get_elem?-reverse :
    (squads : List String) (i : ℕ)
    → i < length squads
    → get_elem? (reverse squads) i ≡ get_elem? squads (length squads - 1 - i)
get_elem?-reverse [] i h = ground arith
get_elem?-reverse (x ∷ squads) i h = elim (Bool-cases (ltb i (length squads))) [
  | inl low ↦
      get_elem?-left (reverse squads) (x ∷ []) i (ground (arith, length-reverse squads))
      ∙ get_elem?-reverse squads i (ground arith)
      ∙ at_same (x ∷ squads) (suc (length squads - 1 - i)) (suc (length squads) - 1 - i)
          (ground arith)
  | inr high ↦
      at_same (reverse squads ++ x ∷ []) i (length (reverse squads) + 0)
        (ground (arith, length-reverse squads))
      ∙ get_elem?-right (reverse squads) (x ∷ []) 0
      ∙ at_same (x ∷ squads) 0 (suc (length squads) - 1 - i) (ground arith)
]

abbrev turn_of : String → ℕ → ℕ → Turn
turn_of squad round number = record { squad_id = squad; round = round; pick_number = number }

get_elem?-turns :
    (round number : ℕ) (squads : List String) (i : ℕ) (squad : String)
    → get_elem? squads i ≡ some squad
    → get_elem? (turns round number squads) i ≡ some (turn_of squad round (number + i))
unfolding turns
get_elem?-turns round number [] i squad at = cc
get_elem?-turns round number (x ∷ squads) zero squad at =
    let same : number ≡ number + 0 = omega arith in
    let mine : x ≡ squad = cc in rw mine (ap (λ n. some (turn_of squad round n)) same)
get_elem?-turns round number (x ∷ squads) (suc i) squad at =
    let same : (number + 1) + i ≡ number + suc i = omega arith in
    get_elem?-turns round (number + 1) squads i squad at
    ∙ ap (λ n. some (turn_of squad round n)) same

module _ (squads : List String) where
  -- The service's rule, from a given round on.
  abbrev turn_from : ℕ → ℕ → Option String
  turn_from round i =
      if (i / length squads + round) % 2 == 1
      then get_elem? squads (i % length squads)
      else get_elem? squads (length squads - 1 - i % length squads)

  abbrev forwards : ℕ → List String
  forwards round = if round % 2 == 1 then squads else reverse squads

  length-forwards : (round : ℕ) → length (forwards round) ≡ length squads
  length-forwards round = ground (arith, length-reverse squads)

  turn_from-low :
      (round i : ℕ) → i < length squads → turn_from round i ≡ get_elem? (forwards round) i
  turn_from-low round i h =
      rw (div-eq_of_lt h, mod-eq_of_lt h) (ground (arith, get_elem?-reverse squads i h))

  turn_from-high :
      (round i : ℕ)
      → 0 < length squads
      → turn_from round (length squads + i) ≡ turn_from (round + 1) i
  turn_from-high round i some_squad =
      let same : i / length squads + 1 + round ≡ i / length squads + (round + 1) = omega arith in
      rw (add-div_left i some_squad, add-mod_left (length squads) i, same) refl

  has_squads : (rounds i : ℕ) → i < rounds * length squads → 0 < length squads
  has_squads rounds i h = elim (Bool-cases (ltb 0 (length squads))) [
    | inl some_squad ↦ ground arith
    | inr none_at_all ↦
        let empty : length squads ≡ 0 = ground arith in
        let nothing : i < rounds * 0 = rw (← empty) h in omega arith
  ]

  block-low :
      (round number i : ℕ) (squad : String) (rest : List Turn)
      → i < length squads
      → turn_from round i ≡ some squad
      → get_elem? (turns round number (forwards round) ++ rest) i
        ≡ some (turn_of squad (i / length squads + round) (number + i))
  block-low round number i squad rest h at =
      let first : round ≡ i / length squads + round = rw (div-eq_of_lt h) (omega arith) in
      get_elem?-left (turns round number (forwards round)) rest i
        (omega (arith, length-turns round number (forwards round), length-forwards round))
      ∙ get_elem?-turns round number (forwards round) i squad (sym (turn_from-low round i h) ∙ at)
      ∙ ap (λ r. some (turn_of squad r (number + i))) first

  block-high :
      (round number j : ℕ) (squad : String) (rest : List Turn)
      → 0 < length squads
      → get_elem? rest j
        ≡ some (turn_of squad (j / length squads + (round + 1)) (number + length squads + j))
      → get_elem? (turns round number (forwards round) ++ rest) (length squads + j)
        ≡ some (
            turn_of squad
              ((length squads + j) / length squads + round)
              (number + (length squads + j)))
  block-high round number j squad rest some_squad at =
      let same : j / length squads + (round + 1) ≡ (length squads + j) / length squads + round =
        rw (add-div_left j some_squad) (omega arith) in
      let counted : number + length squads + j ≡ number + (length squads + j) = omega arith in
      at_same (turns round number (forwards round) ++ rest) (length squads + j)
        (length (turns round number (forwards round)) + j)
        (omega (arith, length-turns round number (forwards round), length-forwards round))
      ∙ get_elem?-right (turns round number (forwards round)) rest j
      ∙ at
      ∙ ap (λ r. some (turn_of squad r (number + length squads + j))) same
      ∙ ap (λ n. some (turn_of squad ((length squads + j) / length squads + round) n)) counted

  snake_rounds-get :
      (rounds round number i : ℕ) (squad : String)
      → i < rounds * length squads
      → turn_from round i ≡ some squad
      → get_elem? (snake_rounds squads rounds round number) i
        ≡ some (turn_of squad (i / length squads + round) (number + i))
  unfolding snake_rounds
  snake_rounds-get zero round number i squad h at = ground arith
  snake_rounds-get (suc rounds) round number i squad h at =
      elim (Bool-cases (ltb i (length squads))) [
        | inl low ↦
            block-low round number i squad
              (snake_rounds squads rounds (round + 1) (number + length squads)) (ground arith) at
        | inr high ↦
            let j = i - length squads in
            let split : length squads + j ≡ i = ground arith in
            let some_squad : 0 < length squads = has_squads (suc rounds) i h in
            let left : j < rounds * length squads = ground arith in
            let moved : turn_from (round + 1) j ≡ some squad =
              sym (turn_from-high round j some_squad) ∙ ap (turn_from round) split ∙ at in
            subst
              (λ k.
                get_elem? (snake_rounds squads (suc rounds) round number) k
                ≡ some (turn_of squad (k / length squads + round) (number + k)))
              split
              (block-high round number j squad
                (snake_rounds squads rounds (round + 1) (number + length squads)) some_squad
                (snake_rounds-get rounds (round + 1) (number + length squads) j squad left moved))
      ]

-- For every pick of a draft, numbered from 0, the manager's list of turns has the squad that the
-- service's rule gives, in the round and with the number that the service writes on the pick.
pub build_snake_pick_order-snake_turn :
    (squads : List String) (rounds i : ℕ) (squad : String)
    → i < rounds * length squads
    → snake_turn squads i ≡ some squad
    → get_elem? (build_snake_pick_order squads rounds) i
      ≡ some (record { squad_id = squad; round = round_of (length squads) i; pick_number = 1 + i })
unfolding build_snake_pick_order snake_turn
build_snake_pick_order-snake_turn squads rounds i squad h at =
    snake_rounds-get squads rounds 1 1 i squad h at
