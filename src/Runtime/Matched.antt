-- ===== src/Runtime/Matched.antt =====
-- _runtime/pushup_support.go: the list of the routes that match a path, as the loop of
-- `getRouteFromPath` collects it.
use pushup.Base.{
  ◌≡◌, refl, sym, ap, ◌∙◌, drop, true, false, List, [], ◌∷◌, ◌++◌, ◌⊎◌, inl, inr, Bytes, All,
  Option, none, some, if◌then◌else◌, arith,
}
use pushup.Runtime.Route.{Route}
use pushup.Runtime.Match.{Find, matches, matched_routes}

module _ {R : Type 0} (find : Find) (path : Bytes) where
  -- No route of the list matches.
  abbrev pub Unmatched : List (Route R) → Type 0
  Unmatched routes = All (λ s. matches find s path ≡ false) routes

  -- Each route of the list that matches has the property.
  abbrev pub MatchesHave : (Route R → Type 0) → List (Route R) → Type 0
  MatchesHave Q routes = All (λ s. (matches find s path ≡ false) ⊎ Q s) routes

  pub matched_routes-Unmatched :
      (routes : List (Route R)) → matched_routes find routes path ≡ [] → Unmatched routes
  unfolding matched_routes
  matched_routes-Unmatched [] h = tt
  matched_routes-Unmatched (r ∷ rs) h =
      by_match (matched_routes-Unmatched rs) (find r.regex path) refl h
    where
      by_match :
          (matched_routes find rs path ≡ [] → Unmatched rs)
          → (m : Option (List Bytes)) → find r.regex path ≡ m
          → matched_routes find (r ∷ rs) path ≡ []
          → Unmatched (r ∷ rs)
      by_match rec none e h = ground (arith, e, h, rec)
      by_match rec (some ms) e h = ground (arith, e, h)

  pub matched_routes-MatchesHave :
      (Q : Route R → Type 0) (routes : List (Route R))
      → All Q (matched_routes find routes path)
      → MatchesHave Q routes
  unfolding matched_routes
  matched_routes-MatchesHave Q [] h = tt
  matched_routes-MatchesHave Q (r ∷ rs) h =
      by_match (matched_routes-MatchesHave Q rs) (find r.regex path) h
    where
      by_match :
          (All Q (matched_routes find rs path) → MatchesHave Q rs)
          → (m : Option (List Bytes))
          → All Q (
              if elim m [ none ↦ false | some _ ↦ true ]
              then r ∷ matched_routes find rs path
              else matched_routes find rs path)
          → (((elim m [ none ↦ false | some _ ↦ true ]) ≡ false) ⊎ Q r) × MatchesHave Q rs
      by_match rec none h = (inl refl, rec h)
      by_match rec (some ms) (q, h) = (inr q, rec h)

  matched_routes-skip :
      (s : Route R) (ss : List (Route R))
      → find s.regex path ≡ none
      → matched_routes find (s ∷ ss) path ≡ matched_routes find ss path
  unfolding matched_routes
  matched_routes-skip s ss e = ground (arith, e)

  matched_routes-keep :
      (s : Route R) (ss : List (Route R)) (ms : List Bytes)
      → find s.regex path ≡ some ms
      → matched_routes find (s ∷ ss) path ≡ s ∷ matched_routes find ss path
  unfolding matched_routes
  matched_routes-keep s ss ms e = ground (arith, e)

  matches-some :
      (s : Route R) (ms : List Bytes) → find s.regex path ≡ some ms → matches find s path ≡ true
  matches-some s ms e = ground (arith, e)

  abbrev head_or : Route R → List (Route R) → Route R
  head_or s [] = s
  head_or s (x ∷ xs) = x

  -- The route `r` of the table, with the matches before it and behind it.
  abbrev pub Parts : List (Route R) → List (Route R) → Route R → List (Route R) → Type 0
  Parts routes before r after =
      (b : List (Route R)) × (a : List (Route R)) × (routes ≡ b ++ r ∷ a)
      × (matches find r path ≡ true)
      × (matched_routes find b path ≡ before)
      × (matched_routes find a path ≡ after)

  -- A route of the list of matches, with those before and behind it, in the whole table.
  pub matched_routes-Parts :
      (routes before : List (Route R)) (r : Route R) (after : List (Route R))
      → matched_routes find routes path ≡ before ++ r ∷ after
      → Parts routes before r after
  unfolding matched_routes
  matched_routes-Parts [] [] r after h = ground arith
  matched_routes-Parts [] (x ∷ before) r after h = ground arith
  matched_routes-Parts (s ∷ ss) before r after h =
      by_match (matched_routes-Parts ss) before (find s.regex path) refl h
    where
      by_match :
          ((before : List (Route R)) (r : Route R) (after : List (Route R))
            → matched_routes find ss path ≡ before ++ r ∷ after
            → Parts ss before r after)
          → (before : List (Route R)) (m : Option (List Bytes)) → find s.regex path ≡ m
          → matched_routes find (s ∷ ss) path ≡ before ++ r ∷ after
          → Parts (s ∷ ss) before r after
      by_match rec before none e h =
          let k = matched_routes-skip s ss e in
          let (b, a, t, m, hb, ha) = rec before r after (sym k ∙ h) in
          (s ∷ b, a, ap (◌∷◌ s) t, m, matched_routes-skip s b e ∙ hb, ha)
      by_match rec [] (some ms) e h =
          let k = sym (matched_routes-keep s ss ms e) ∙ h in
          let q = ap (head_or s) k in
          (
            [],
            ss,
            ap (λ y. y ∷ ss) q,
            ap (λ x. matches find x path) (sym q) ∙ matches-some s ms e,
            refl,
            ap (drop 1) k,
          )
      by_match rec (x ∷ before) (some ms) e h =
          let k = sym (matched_routes-keep s ss ms e) ∙ h in
          let (b, a, t, m, hb, ha) = rec before r after (ap (drop 1) k) in
          (
            s ∷ b,
            a,
            ap (◌∷◌ s) t,
            m,
            matched_routes-keep s b ms e
                ∙ (ap (λ y. y ∷ matched_routes find b path) (ap (head_or s) k) ∙ ap (◌∷◌ x) hb),
            ha,
          )
