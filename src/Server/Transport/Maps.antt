-- ===== src/Server/Transport/Maps.antt =====
-- The maps of server/transport.go.
use distributed_key_value_st.Base.{
  eq_iff, inr, inl, [], Bool-cases, eq_refl, ◌∷◌, arith, map, some, false, str_eq, ◌≡◌, List,
  String,
}
use distributed_key_value_st.Server.Transport.{map_set, map_get}
use mathlib.Core.List.{Memᴰ}

module _ {A : Type 0} where
  pub map_get-map_set :
      (k : String) (a : A) (m : List (String × A)) → map_get k (map_set k a m) ≡ some a
  unfolding map_get map_set
  map_get-map_set k a [] = ground (arith, eq_refl k)
  map_get-map_set k a ((j, b) ∷ m) = let rest = map_get-map_set k a m in ground (arith, rest)

  pub map_get-map_set_other :
      (k j : String) (a : A) (m : List (String × A))
      → str_eq k j ≡ false
      → map_get j (map_set k a m) ≡ map_get j m
  unfolding map_get map_set
  map_get-map_set_other k j a [] h = ground (arith, h)
  map_get-map_set_other k j a ((i, b) ∷ m) h =
      let rest = map_get-map_set_other k j a m h in
      elim (Bool-cases (str_eq i k)) [
        | inl e ↦
            let same : i ≡ k = (eq_iff i k).0 e in
            let apart : str_eq i j ≡ false = rw same h in ground (arith, e, apart)
        | inr e ↦ ground (arith, rest, e)
      ]

  pub map_get-Mem :
      (k : String) (a : A) (m : List (String × A))
      → map_get k m ≡ some a
      → Memᴰ a (map (λ e. e.1) m)
  unfolding map_get
  map_get-Mem k a [] h = absurd (cc h)
  map_get-Mem k a ((j, b) ∷ m) h = elim (Bool-cases (str_eq j k)) [
    | inl e ↦ Memᴰ.head (ground (arith, h, e))
    | inr e ↦ Memᴰ.tail (map_get-Mem k a m (ground (arith, h, e)))
  ]
