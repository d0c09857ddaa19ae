-- ===== src/Offline/Order.antt =====
-- The causal order of the queue: enqueueSquadMutation of frontend/src/lib/offlineQueue.ts.
use Prim.Native.String.{String}
use fantasy_xi.Prelude.{Bool, ◌&&◌, ◌⊎◌, none, ℕ, ◌≡◌, true, some, List, [], ◌∷◌, ◌++◌, All, ltb}
use fantasy_xi.Offline.Causal.{without}
use fantasy_xi.Offline.{
  first_of, is_pending, pending, detect_mutation_conflict, Mutation, Incoming, or_zero,
}

-- Before `n` in the causal order.
abbrev IsBefore : ℕ → Mutation → Type 0
IsBefore n m = ltb (or_zero m.seq) n ≡ true

-- A pending mutation of the same squad, or, where neither has a squad, of the same manager.
abbrev pub IsSuperseded : Incoming → Mutation → Type 0
IsSuperseded data_in m =
    (m.status ≡ pending)
    × (((squad : String) × (m.squad_id ≡ some squad) × (data_in.squad_id ≡ some squad))
        ⊎ ((m.squad_id ≡ none)
            × (data_in.squad_id ≡ none)
            × ((user : String) × (m.user_id ≡ some user) × (data_in.user_id ≡ some user))))

abbrev is_superseded : Incoming → Mutation → Bool
is_superseded data_in m = is_pending m && detect_mutation_conflict m data_in

-- The new mutation has what the caller gave, and has not been tried.
abbrev pub IsRequest : ℕ → Incoming → Mutation → Type 0
IsRequest now data_in q =
    (q.squad_id ≡ data_in.squad_id)
    × (q.user_id ≡ data_in.user_id)
    × (q.payload ≡ data_in.payload)
    × (q.timestamp ≡ now)
    × (q.status ≡ pending)
    × (q.retry_count ≡ 0)

-- What becomes of a list in causal order when `q` is enqueued. Where nothing is superseded, `q` comes
-- to its end; otherwise the first that is superseded goes, and `q` has its identifier and the revision
-- that it started from.
abbrev pub IsCoalesced : String → Incoming → Mutation → List Mutation → List Mutation → Type 0
IsCoalesced fresh data_in q old new =
    (All (λ m. ¬ IsSuperseded data_in m) old
      × (q.id ≡ fresh)
      × (q.base_revision ≡ data_in.base_revision)
      × (new ≡ old ++ q ∷ []))
    ⊎ ((m : Mutation) × (earlier : List Mutation) × (later : List Mutation) × (old
          ≡ earlier ++ m ∷ later)
        × All (λ n. ¬ IsSuperseded data_in n) earlier
        × IsSuperseded data_in m
        × (q.id ≡ m.id)
        × (q.base_revision ≡ first_of m.base_revision data_in.base_revision)
        × (new ≡ without m.id old ++ q ∷ []))
