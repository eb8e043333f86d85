-- ===== src/Runtime/Params.antt =====
-- _runtime/pushup_support.go: the parameters of a request, `zipMap` and `getParam`.
use pushup.Base.{
  ◌≤◌, ◌≡◌, ◌≢◌, refl, ◌∙◌, Bool, true, false, Option, none, some, List, [], ◌∷◌, ◌++◌, length,
  length-append, Bytes, All, equal, equal_iff, equal_refl, if◌then◌else◌, arith,
}

-- A map with string keys: the newest entry of a key is its value.
abbrev pub Params : Type 0
Params = List (Bytes × Bytes)

-- The loop of `zipMap`; `none` is the index out of range where there are fewer values than keys.
unfoldable pub zip_loop : Params → List Bytes → List Bytes → Option Params
zip_loop m [] vs = some m
zip_loop m (k ∷ ks) [] = none
zip_loop m (k ∷ ks) (v ∷ vs) = zip_loop ((k, v) ∷ m) ks vs

unfoldable pub zip_map : List Bytes → List Bytes → Option Params
unfolding zip_loop
zip_map ks vs = zip_loop [] ks vs

-- The lookup of `getParam`: the empty string where the key is missing.
unfoldable pub get_param : Params → Bytes → Bytes
get_param [] slug = []
get_param ((k, v) ∷ m) slug = if equal k slug then v else get_param m slug

zip_loop_total :
    (m : Params) (ks vs : List Bytes)
    → length ks ≤ length vs
    → (z : Params) × (zip_loop m ks vs ≡ some z)
unfolding zip_loop
zip_loop_total m [] vs h = (m, refl)
zip_loop_total m (k ∷ ks) [] h = ground arith
zip_loop_total m (k ∷ ks) (v ∷ vs) h = zip_loop_total ((k, v) ∷ m) ks vs (omega (arith, h))

pub zip_map_total :
    (ks vs : List Bytes) → length ks ≤ length vs → (z : Params) × (zip_map ks vs ≡ some z)
unfolding zip_map
zip_map_total ks vs h = zip_loop_total [] ks vs h

get_param-same : (m : Params) (k v : Bytes) → get_param ((k, v) ∷ m) k ≡ v
unfolding get_param
get_param-same m k v = rw (equal_refl k) refl

get_param-other :
    (m : Params) (k slug v : Bytes) → k ≢ slug → get_param ((k, v) ∷ m) slug ≡ get_param m slug
unfolding get_param
get_param-other m k slug v n = by_test (equal k slug) refl
  where
    by_test : (t : Bool) → equal k slug ≡ t → (if t then v else get_param m slug) ≡ get_param m slug
    by_test true e = absurd (n ((equal_iff k slug).0 e))
    by_test false e = refl

-- A key that no later key repeats keeps its value.
zip_loop-kept :
    (m z : Params) (slug : Bytes) (ks vs : List Bytes)
    → All (λ k. k ≢ slug) ks
    → zip_loop m ks vs ≡ some z
    → get_param z slug ≡ get_param m slug
unfolding zip_loop get_param
zip_loop-kept m z slug [] vs a h = ground (arith, h)
zip_loop-kept m z slug (k ∷ ks) [] a h = ground arith
zip_loop-kept m z slug (k ∷ ks) (v ∷ vs) (n, a) h =
    zip_loop-kept ((k, v) ∷ m) z slug ks vs a h ∙ get_param-other m k slug v n

zip_loop-get_param :
    (m z : Params) (slug v : Bytes) (ks vs ks' vs' : List Bytes)
    → length ks ≡ length vs
    → All (λ k. k ≢ slug) ks'
    → zip_loop m (ks ++ slug ∷ ks') (vs ++ v ∷ vs') ≡ some z
    → get_param z slug ≡ v
unfolding zip_loop get_param
zip_loop-get_param m z slug v [] [] ks' vs' l a h =
    zip_loop-kept ((slug, v) ∷ m) z slug ks' vs' a h ∙ get_param-same m slug v
zip_loop-get_param m z slug v [] (x ∷ vs) ks' vs' l a h = ground arith
zip_loop-get_param m z slug v (k ∷ ks) [] ks' vs' l a h = ground arith
zip_loop-get_param m z slug v (k ∷ ks) (x ∷ vs) ks' vs' l a h =
    zip_loop-get_param ((k, x) ∷ m) z slug v ks vs ks' vs' (omega (arith, l)) a h

-- For slugs `ks ++ slug ∷ ks'` with a value each, and more values or none behind them, zipMap makes a
-- map that getParam reads the value of `slug` from, if `slug` is not repeated in `ks'`.
pub zip_map-get_param :
    (ks : List Bytes) (slug : Bytes) (ks' vs : List Bytes) (v : Bytes) (vs' : List Bytes)
    → length ks ≡ length vs
    → length ks' ≤ length vs'
    → All (λ k. k ≢ slug) ks'
    → (m : Params) × (zip_map (ks ++ slug ∷ ks') (vs ++ v ∷ vs') ≡ some m) × (get_param m slug ≡ v)
unfolding zip_map
zip_map-get_param ks slug ks' vs v vs' l l' a =
    let (m, e) =
      zip_map_total (ks ++ slug ∷ ks') (vs ++ v ∷ vs')
        (omega (arith, l, l', length-append ks (slug ∷ ks'), length-append vs (v ∷ vs'))) in
    (m, e, zip_loop-get_param [] m slug v ks vs ks' vs' l a e)
