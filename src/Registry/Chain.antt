-- ===== src/Registry/Chain.antt =====
-- The loop of `decorate` climbs the chain of versions, and ends where the chain does.
use tssdgo.Prelude.{
  ℕ, zero, suc, ◌<◌, ◌≡◌, ◌⊎◌, refl, none, some, List, Bool-cases, Option-cases, inl, inr, true,
  false, arith,
}
use tssdgo.Wire.{Result, ok, err, schema_unmatch}
use tssdgo.Buffer.Assemble.{same_text}
use tssdgo.Registry.{Flatable, lookup_key, BuildInfo, is_empty, decorate_loop}

module _ (flatable : Flatable) where
  -- An object of the version `to` comes from `flat` by the chain: `flat` names the version of `to`
  -- as the next one, or a registered version whose object, decorated with `flat`, goes on.
  pub data Climbs (versions : List (List ℕ × BuildInfo flatable)) (to : flatable.Object)
      : flatable.Object → flatable.Object → Type 0 where
    arrives :
        {flat r : flatable.Object}
        → is_empty (flatable.progeny flat) ≡ false
        → same_text (flatable.progeny flat) (flatable.version to) ≡ true
        → r ≡ flatable.decorate to flat
        → Climbs versions to flat r
    climbs :
        {flat r : flatable.Object} {bi : BuildInfo flatable}
        → is_empty (flatable.progeny flat) ≡ false
        → same_text (flatable.progeny flat) (flatable.version to) ≡ false
        → lookup_key (flatable.progeny flat) versions ≡ some bi
        → Climbs versions to (flatable.decorate (flatable.build bi.builder) flat) r
        → Climbs versions to flat r

  -- Each registered version leads to one of lower rank: the chain has no cycle.
  abbrev pub Descends : (List ℕ → ℕ) → List (List ℕ × BuildInfo flatable) → Type 0
  Descends rank versions =
      (flat : flatable.Object) (bi : BuildInfo flatable)
      → lookup_key (flatable.progeny flat) versions ≡ some bi
      → rank (flatable.progeny (flatable.decorate (flatable.build bi.builder) flat))
        < rank (flatable.progeny flat)

  -- The loop's answer is an object at the end of the chain, or an error when there is none.
  abbrev pub Decorated :
      List (List ℕ × BuildInfo flatable)
      → flatable.Object
      → flatable.Object
      → Result flatable.Object
      → Type 0
  Decorated versions to flat result =
      ((r : flatable.Object) × (result ≡ ok r) × Climbs versions to flat r)
      ⊎ ((result ≡ err schema_unmatch) × ((r : flatable.Object) → ¬ Climbs versions to flat r))

module _ (flatable : Flatable) (versions : List (List ℕ × BuildInfo flatable))
    (to flat : flatable.Object) where
  no_progeny :
      is_empty (flatable.progeny flat) ≡ true
      → (r : flatable.Object) → ¬ Climbs flatable versions to flat r
  no_progeny h r (arrives a b c) = cc
  no_progeny h r (climbs a b c d) = cc

  not_registered :
      same_text (flatable.progeny flat) (flatable.version to) ≡ false
      → lookup_key (flatable.progeny flat) versions ≡ none
      → (r : flatable.Object) → ¬ Climbs flatable versions to flat r
  not_registered h k r (arrives a b c) = cc
  not_registered h k r (climbs a b c d) = cc

  -- The rest of the chain decides.
  climb_on :
      (bi : BuildInfo flatable)
      → is_empty (flatable.progeny flat) ≡ false
      → same_text (flatable.progeny flat) (flatable.version to) ≡ false
      → lookup_key (flatable.progeny flat) versions ≡ some bi
      → (result : Result flatable.Object)
      → Decorated flatable versions to (flatable.decorate (flatable.build bi.builder) flat) result
      → Decorated flatable versions to flat result
  climb_on bi e s k result (inl (r, h, c)) = inl (r, h, climbs e s k c)
  climb_on bi e s k result (inr (h, none_climbs)) = inr (h, stays)
    where
      stays : (r : flatable.Object) → ¬ Climbs flatable versions to flat r
      stays r (arrives a b c) = cc
      stays r (climbs {bi = bi'} a b c d) = let same : bi' ≡ bi = cc in none_climbs r (rw same at d)

-- Where no chain of versions has a cycle, the loop ends within as many rounds as the rank of the
-- next version, and one. It gives the object at the end of the chain to the version asked for,
-- and refuses exactly when the chain does not lead there.
pub decorate_loop-Decorated :
    (flatable : Flatable) (rank : List ℕ → ℕ) (versions : List (List ℕ × BuildInfo flatable))
    (to flat : flatable.Object) (fuel : ℕ)
    → Descends flatable rank versions
    → rank (flatable.progeny flat) < fuel
    → Decorated flatable versions to flat (decorate_loop flatable fuel versions to flat)
unfolding decorate_loop
decorate_loop-Decorated flatable rank versions to flat zero down h = absurd (omega arith)
decorate_loop-Decorated flatable rank versions to flat (suc fuel) down h =
    elim (Bool-cases (is_empty (flatable.progeny flat))) [
      | inl e ↦ rw e (inr (refl, no_progeny flatable versions to flat e))
      | inr e ↦ elim (Bool-cases (same_text (flatable.progeny flat) (flatable.version to))) [
        | inl s ↦ rw (e, s) (inl (flatable.decorate to flat, refl, arrives e s refl))
        | inr s ↦ elim (Option-cases (lookup_key (flatable.progeny flat) versions)) [
          | inl k ↦ rw (e, s, k) (inr (refl, not_registered flatable versions to flat s k))
          | inr (bi, k) ↦
              let next = flatable.decorate (flatable.build bi.builder) flat in
              let lower = down flat bi k in
              let rest =
                decorate_loop-Decorated flatable rank versions to next fuel down
                  (omega (arith, lower, h)) in
              rw (e, s, k) (climb_on flatable versions to flat bi e s k _ rest)
        ]
      ]
    ]
