-- ===== src/Common/Result.antt =====
-- common/Result.hpp: a value or an error.
use neuro_mesh.Prelude.{◌≡◌, refl, Bool, true, false, not}

-- `std::variant<T, E>`
pub data Result (T E : Type 0) : Type 0 where
  value : T → Result T E
  error : E → Result T E

module _ {T E : Type 0} where
  unfoldable pub ok : Result T E → Bool
  ok (Result.value t) = true
  ok (Result.error e) = false

  unfoldable pub is_err : Result T E → Bool
  unfolding ok
  is_err r = not (ok r)

  unfoldable pub unwrap_or : Result T E → T → T
  unwrap_or (Result.value t) fallback = t
  unwrap_or (Result.error e) fallback = fallback

  unfoldable pub value_or : Result T E → T → T
  value_or (Result.value t) fallback = t
  value_or (Result.error e) fallback = fallback

  unfoldable pub map : {U : Type 0} → (T → U) → Result T E → Result U E
  map f (Result.value t) = Result.value (f t)
  map f (Result.error e) = Result.error e

  unfoldable pub map_or : {U : Type 0} → U → (T → U) → Result T E → U
  map_or fallback f (Result.value t) = f t
  map_or fallback f (Result.error e) = fallback

  unfoldable pub map_err : {F : Type 0} → (E → F) → Result T E → Result T F
  map_err f (Result.value t) = Result.value t
  map_err f (Result.error e) = Result.error (f e)

-- `map` and `map_err` keep apart: they commute, `map` composes, and falling back after `map` is
-- `map_or`; none of them turns an error into a value.
pub map-laws :
    {T U V E F : Type 0} (f : T → U) (g : U → V) (h : E → F) (fallback : U) (r : Result T E)
    → (map f (map_err h r) ≡ map_err h (map f r))
      × (map g (map f r) ≡ map (λ t. g (f t)) r)
      × (unwrap_or (map f r) fallback ≡ map_or fallback f r)
      × (ok (map f (map_err h r)) ≡ ok r)
unfolding map map_err unwrap_or map_or ok
map-laws f g h fallback (Result.value t) = (refl, refl, refl, refl)
map-laws f g h fallback (Result.error e) = (refl, refl, refl, refl)
