-- ===== src/Feed/Collect.antt =====
-- src/feed.rs: a wave over a feed without gaps, in whatever order its probes complete.
use weeb.Prelude.{
  ℕ, zero, suc, ◌+◌, ◌-◌, ◌≤◌, ◌<◌, Bool, true, false, Bool-cases, Option-cases, ◌&&◌, ◌||◌,
  if◌then◌else◌, ltb, ◌==◌, Option, none, some, ◌>>=◌, List, [], ◌∷◌, length, length-set, get_or,
  set, replicate, All, ◌≡◌, refl, sym, ap, ◌∙◌, inl, inr, arith,
}
use weeb.Feed.{
  FeedProbe, found, missing, transient, all_completed, Wave, new_wave, see, proven,
  collect_feed_wave,
}

get_or-set {ℓ} :
    {A : Type ℓ} (xs : List A) (i j : ℕ) (v d : A)
    → i < length xs
    → get_or (set xs i v) j d ≡ (if j == i then v else get_or xs j d)
get_or-set [] i j v d h = absurd (omega arith)
get_or-set (x ∷ xs) zero zero v d h = refl
get_or-set (x ∷ xs) zero (suc j) v d h = ground arith
get_or-set (x ∷ xs) (suc i) zero v d h = ground arith
get_or-set (x ∷ xs) (suc i) (suc j) v d h = ground (arith, get_or-set xs i j v d)

true_of_or : (b : Bool) → (b || false) ≡ true → b ≡ true
true_of_or true h = refl
true_of_or false h = h

get_or-replicate {ℓ} : {A : Type ℓ} (n i : ℕ) (d : A) → get_or (replicate n d) i d ≡ d
get_or-replicate zero i d = refl
get_or-replicate (suc n) zero d = refl
get_or-replicate (suc n) (suc i) d = get_or-replicate n i d

abbrev pub has : ℕ → List ℕ → Bool
has l [] = false
has l (x ∷ xs) = x == l || has l xs

-- The levels that are not above a bound were found, the others up to a last one are missing.
module _ {T : Type 0} (index_of : ℕ → ℕ) (payload_of : ℕ → T) (last bound : ℕ) where
  -- The probe of a level.
  abbrev pub outcome : ℕ → FeedProbe T
  outcome level = if ltb bound level then missing else found (payload_of (index_of level))

  abbrev pub events : List ℕ → List (ℕ × ℕ × FeedProbe T)
  events [] = []
  events (level ∷ levels) = (level, index_of level, outcome level) ∷ events levels

  abbrev latest_at : ℕ → Option (ℕ × T)
  latest_at highest =
      if highest == 0 then none else some (index_of highest, payload_of (index_of highest))

  -- What a wave has seen, level by level.
  pub record IsSeen (w : Wave T) : Type 0 where
    pub sizes : (length w.completed ≡ 9) × (length w.missing_at ≡ 9)
    pub below : w.highest ≤ bound
    pub latest : w.latest ≡ latest_at w.highest
    pub reached : (l : ℕ) → get_or w.completed l false ≡ true → l ≤ bound → l ≤ w.highest
    pub only : (l : ℕ) → get_or w.completed l false ≡ true → l ≤ last
    pub noted :
        (l : ℕ)
        → get_or w.missing_at l none
          ≡ (if ltb bound l && get_or w.completed l false then some (index_of l) else none)

  see-IsSeen :
      (w : Wave T) (level : ℕ)
      → level ≤ last
      → last ≤ 8
      → IsSeen w
      → IsSeen (see w level (index_of level) (outcome level))
  unfolding see
  see-IsSeen w level small few s =
      let done = λ (l : ℕ). get_or-set w.completed level l true false (omega (arith, s.sizes.0)) in
      let size : length (set w.completed level true) ≡ 9 =
        length-set w.completed level true ∙ s.sizes.0 in
      elim (Bool-cases (ltb bound level)) [
        | inl above ↦ rw above (record {
          sizes = (size, length-set w.missing_at level (some (index_of level)) ∙ s.sizes.1);
          below = s.below;
          latest = s.latest;
          reached = λ l c le. s.reached l (ground (arith, c, le, above, done l)) le;
          only = λ l c. ground (arith, c, done l, s.only l);
          noted = λ l. ground (
            arith,
            above,
            s.noted l,
            done l,
            get_or-set w.missing_at level l (some (index_of level)) none (omega (arith, s.sizes.1)),
          );
        })
        | inr inside ↦ elim (Bool-cases (ltb w.highest level)) [
          | inl higher ↦
              rw (inside, higher)
                (record {
                  sizes = (size, s.sizes.1);
                  below = ground (arith, inside);
                  latest = ground (arith, higher);
                  reached = λ l c le. ground (arith, c, le, higher, done l, s.reached l);
                  only = λ l c. ground (arith, c, done l, s.only l);
                  noted = λ l. ground (arith, inside, s.noted l, done l);
                })
          | inr lower ↦
              rw (inside, lower)
                (record {
                  sizes = (size, s.sizes.1);
                  below = s.below;
                  latest = s.latest;
                  reached = λ l c le. ground (arith, c, le, lower, done l, s.reached l);
                  only = λ l c. ground (arith, c, done l, s.only l);
                  noted = λ l. ground (arith, inside, s.noted l, done l);
                })
        ]
      ]

  -- What the wave is to give: the highest level that is found, if any is, and the index of the one
  -- above it, if the wave has it.
  abbrev pub expected : Option (ℕ × (ℕ × T) × Option ℕ)
  expected =
      if bound == 0
      then none
      else some (
        bound,
        (index_of bound, payload_of (index_of bound)),
        if ltb bound last then some (index_of (bound + 1)) else none,
      )

  all_completed-at :
      (n level l : ℕ) (completed : List Bool)
      → all_completed n level completed ≡ true
      → level ≤ l
      → l < level + n
      → get_or completed l false ≡ true
  unfolding all_completed
  all_completed-at zero level l completed h lo hi = absurd (omega arith)
  all_completed-at (suc n) level l completed h lo hi = elim (Bool-cases (level == l)) [
    | inl same ↦
        let e : level ≡ l = ground (arith, same) in
        ap (λ i. get_or completed i false) (sym e) ∙ ground (arith, h)
    | inr other ↦
        all_completed-at n (level + 1) l completed (ground (arith, h)) (ground (arith, other))
          (omega arith)
  ]

  all_completed-of :
      (n level : ℕ) (completed : List Bool)
      → ((l : ℕ) → level ≤ l → l < level + n → get_or completed l false ≡ true)
      → all_completed n level completed ≡ true
  unfolding all_completed
  all_completed-of zero level completed h = refl
  all_completed-of (suc n) level completed h =
      let first = h level (omega arith) (omega arith) in
      let rest =
        all_completed-of n (level + 1) completed (λ l lo hi. h l (omega arith) (omega arith)) in
      rw (first, rest) refl

  -- The level above the bound, once all levels above the highest one have completed.
  missing-above :
      (w : Wave T)
      → IsSeen w
      → w.highest ≡ bound
      → all_completed (last - w.highest) (w.highest + 1) w.completed ≡ true
      → get_or w.missing_at (w.highest + 1) none
        ≡ (if ltb bound last then some (index_of (bound + 1)) else none)
  missing-above w s top all =
      let noted = s.noted (w.highest + 1) in
      let next : index_of (w.highest + 1) ≡ index_of (bound + 1) = ap (λ n. index_of (n + 1)) top in
      let above : ltb bound (w.highest + 1) ≡ true = ground (arith, top) in
      elim (Bool-cases (ltb bound last)) [
        | inl more ↦
            let seen =
              all_completed-at (last - w.highest) (w.highest + 1) (w.highest + 1) w.completed all
                (omega arith) (ground (arith, more, top)) in
            rw more (noted ∙ rw (above, seen, next) refl)
        | inr end ↦ elim (Bool-cases (get_or w.completed (w.highest + 1) false)) [
          | inl seen ↦ absurd (ground (arith, end, top, s.only (w.highest + 1) seen))
          | inr unseen ↦ rw end (noted ∙ rw (above, unseen) refl)
        ]
      ]

  -- What is proven, from the parts of the state.
  proven-value :
      (w : Wave T)
      → IsSeen w
      → (w.highest == 0) ≡ false
      → all_completed (last - w.highest) (w.highest + 1) w.completed ≡ true
      → proven last w
        ≡ some (
          w.highest,
          (index_of w.highest, payload_of (index_of w.highest)),
          get_or w.missing_at (w.highest + 1) none,
        )
  unfolding proven
  proven-value w s some_found all =
      let l : w.latest ≡ some (index_of w.highest, payload_of (index_of w.highest)) =
        s.latest ∙ rw some_found refl in
      rw (l, ◌>>=◌) (rw all refl)

  proven-top :
      (w : Wave T)
      → IsSeen w
      → w.highest ≡ bound
      → (w.highest == 0) ≡ false
      → all_completed (last - w.highest) (w.highest + 1) w.completed ≡ true
      → proven last w ≡ expected
  proven-top w s top some_found all =
      let some_bound : (bound == 0) ≡ false = ground (arith, top, some_found) in
      proven-value w s some_found all
      ∙ ap (λ m. some (w.highest, (index_of w.highest, payload_of (index_of w.highest)), m))
          (missing-above w s top all)
      ∙ ap
          (λ n. some (
            n,
            (index_of n, payload_of (index_of n)),
            if ltb bound last then some (index_of (bound + 1)) else none,
          ))
          top
      ∙ rw some_bound refl

  -- A frontier that is proven is the right one.
  proven-expected :
      (w : Wave T) (r : ℕ × (ℕ × T) × Option ℕ)
      → bound ≤ last
      → IsSeen w
      → proven last w ≡ some r
      → some r ≡ expected
  unfolding proven
  proven-expected w r le s h = elim (Bool-cases (w.highest == 0)) [
    | inl none_found ↦ absurd (ground (arith, none_found, s.latest, h))
    | inr some_found ↦
        elim (Bool-cases (all_completed (last - w.highest) (w.highest + 1) w.completed)) [
          | inr open_levels ↦ absurd (ground (arith, open_levels, s.latest, some_found, h))
          | inl all ↦
              let reached_bound : bound ≤ w.highest = elim (Bool-cases (ltb w.highest bound)) [
                | inl short ↦
                    s.reached bound
                      (all_completed-at (last - w.highest) (w.highest + 1) bound w.completed all
                        (ground (arith, short)) (ground (arith, short)))
                      (omega arith)
                | inr there ↦ ground (arith, there)
              ] in
              let top : w.highest ≡ bound = omega (arith, s.below) in
              sym h ∙ proven-top w s top some_found all
        ]
  ]

  -- Each level has completed, or is still to come.
  abbrev pub IsCovered : Wave T → List ℕ → Type 0
  IsCovered w levels =
      (l : ℕ) → 0 < l → l ≤ last → (get_or w.completed l false || has l levels) ≡ true

  completed-see :
      (w : Wave T) (level : ℕ) (result : FeedProbe T) (index l : ℕ)
      → level < length w.completed
      → get_or (see w level index result).completed l false
        ≡ (if l == level then true else get_or w.completed l false)
  unfolding see
  completed-see w level (found payload) index l h =
      ground (arith, get_or-set w.completed level l true false h)
  completed-see w level missing index l h = get_or-set w.completed level l true false h
  completed-see w level transient index l h = get_or-set w.completed level l true false h

  -- Once all levels have completed, the frontier is proven if there is one.
  proven-all :
      (w : Wave T) → 0 < bound → bound ≤ last → IsSeen w → IsCovered w [] → proven last w ≡ expected
  proven-all w some_bound le s covered =
      let done : (l : ℕ) → 0 < l → l ≤ last → get_or w.completed l false ≡ true =
        λ l pos in_wave. true_of_or (get_or w.completed l false) (covered l pos in_wave) in
      let reached_bound = s.reached bound (done bound some_bound le) (omega arith) in
      let top : w.highest ≡ bound = omega (arith, s.below) in
      proven-top w s top (ground (arith, top)) (
        all_completed-of (last - w.highest) (w.highest + 1) w.completed
          (λ l lo hi. done l (omega arith) (omega (arith, s.below))))

  -- The wave gives what is expected, in whatever order its probes complete.
  pub collect_feed_wave-expected :
      (levels : List ℕ) (w : Wave T)
      → bound ≤ last
      → last ≤ 8
      → All (λ l. l ≤ last) levels
      → IsSeen w
      → IsCovered w levels
      → proven last w ≡ none
      → collect_feed_wave (events levels) last w ≡ expected
  unfolding collect_feed_wave
  collect_feed_wave-expected [] w le few inside s covered open_wave =
      elim (Bool-cases (bound == 0)) [
        | inl z ↦ rw z refl
        | inr some_bound ↦ sym open_wave ∙ proven-all w (ground (arith, some_bound)) le s covered
      ]
  collect_feed_wave-expected (level ∷ levels) w le few inside s covered open_wave =
      let w' : Wave T = see w level (index_of level) (outcome level) in
      let s' : IsSeen w' = see-IsSeen w level inside.0 few s in
      let covered' : IsCovered w' levels = λ l pos in_wave. ground (
        arith,
        covered l pos in_wave,
        completed-see w level (outcome level) (index_of level) l
            (omega (arith, s.sizes.0, inside.0)),
      ) in
      elim (Option-cases (proven last w')) [
        | inl still_open ↦
            rw (collect_feed_wave, still_open)
              (collect_feed_wave-expected levels w' le few inside.1 s' covered' still_open)
        | inr (r, now) ↦ rw (collect_feed_wave, now) (proven-expected w' r le s' now)
      ]

  pub new_wave-IsSeen : IsSeen new_wave
  new_wave-IsSeen = record {
    sizes = (refl, refl);
    below = omega arith;
    latest = refl;
    reached = λ l c le. cc (c, get_or-replicate 9 l false);
    only = λ l c. cc (c, get_or-replicate 9 l false);
    noted =
        λ l. ground (arith, get_or-replicate 9 l false, get_or-replicate {A = Option ℕ} 9 l none);
  }

  pub new_wave-open : proven {T = T} last new_wave ≡ none
  unfolding proven
  new_wave-open = refl
