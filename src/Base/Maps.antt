-- ===== src/Base/Maps.antt =====
-- `std::map` as the list of its entries in the order of their keys. Its lookup is a partial function,
-- of which an insertion changes one place.
use mathlib.Core.Path.{◌≡◌, subst}
use mathlib.Core.Logic.{◌≢◌, inl, inr}
use mathlib.Core.Bool.{true}
use mathlib.Core.Option.{Option, none, some, some-injective}
use mathlib.Core.List.{List, [], ◌∷◌}
use native.Mathlib.Omega.{arith}
use sicxe.Base.Tests.{if◌then◌else◌, Bool-cases}
use sicxe.Base.Lists.{All}
use sicxe.Base.Keys.{Key, same_flip}

abbrev pub Map {ℓ κ} : Type ℓ → Type κ → Type (ℓ ⊔ κ)
Map K V = List (K × V)

module _ {ℓ κ} {K : Type ℓ} {V : Type κ} ⦃k : Key K⦄ where
  -- `find`.
  unfoldable pub find : K → Map K V → Option V
  find key [] = none
  find key ((other, value) ∷ rest) =
      let later = find key rest in if k.same other key then some value else later

  -- The map with the value at the key, which takes the place of one that is there.
  unfoldable pub insert : K → V → Map K V → Map K V
  insert key value [] = (key, value) ∷ []
  insert key value ((other, old) ∷ rest) =
      let later = insert key value rest in
      if k.same other key
      then (key, value) ∷ rest
      else (if k.before key other then (key, value) ∷ (other, old) ∷ rest else (other, old) ∷ later)

  -- The keys are in strictly rising order.
  abbrev pub Above : K → Map K V → Type 0
  Above low [] = Unit
  Above low (entry ∷ rest) = (k.before low entry.0 ≡ true) × Above low rest

  abbrev pub IsSorted : Map K V → Type 0
  IsSorted [] = Unit
  IsSorted (entry ∷ rest) = Above entry.0 rest × IsSorted rest

  pub find-insert_same :
      (key : K) (value : V) (m : Map K V) → find key (insert key value m) ≡ some value
  unfolding find insert
  find-insert_same key value [] = ground (arith, k.same_iff key key)
  find-insert_same key value ((other, old) ∷ rest) =
      ground (arith, k.same_iff key key, find-insert_same key value rest)

  pub find-insert_other :
      (key other : K) (value : V) (m : Map K V)
      → other ≢ key
      → find other (insert key value m) ≡ find other m
  unfolding find insert
  find-insert_other key other value [] h = ground (arith, k.same_iff key other)
  find-insert_other key other value ((first, old) ∷ rest) h = ground (
    arith,
    k.same_iff key other,
    k.same_iff first key,
    k.same_iff first other,
    find-insert_other key other value rest h,
  )

  Above-insert :
      (low key : K) (value : V) (m : Map K V)
      → k.before low key ≡ true
      → Above low m
      → Above low (insert key value m)
  unfolding insert
  Above-insert low key value [] h v = (h, tt)
  Above-insert low key value ((other, old) ∷ rest) h v = elim (Bool-cases (k.same other key)) [
    | inl e ↦ rw e (h, v.1)
    | inr e ↦ elim (Bool-cases (k.before key other)) [
      | inl f ↦ rw (e, f) (h, v)
      | inr f ↦ rw (e, f) (v.0, Above-insert low key value rest h v.1)
    ]
  ]

  Above-trans : (low high : K) (m : Map K V) → k.before low high ≡ true → Above high m → Above low m
  Above-trans low high [] h v = tt
  Above-trans low high (entry ∷ rest) h v =
      (k.before_trans low high entry.0 h v.0, Above-trans low high rest h v.1)

  pub insert-IsSorted :
      (key : K) (value : V) (m : Map K V) → IsSorted m → IsSorted (insert key value m)
  unfolding insert
  insert-IsSorted key value [] v = (tt, tt)
  insert-IsSorted key value ((other, old) ∷ rest) v = elim (Bool-cases (k.same other key)) [
    | inl e ↦ rw e (subst (λ t. Above t rest) ((k.same_iff other key).0 e) v.0, v.1)
    | inr e ↦ elim (Bool-cases (k.before key other)) [
      | inl f ↦ rw (e, f) ((f, Above-trans key other rest f v.0), v)
      | inr f ↦
          let above = k.before_total key other (same_flip key other e) f in
          rw (e, f)
            (Above-insert other key value rest above v.0, insert-IsSorted key value rest v.1)
    ]
  ]

  -- A property of the values.
  abbrev pub Values {μ} : (V → Type μ) → Map K V → Type μ
  Values P = All (λ entry. P entry.1)

  pub Values-insert {μ} :
      (P : V → Type μ) (key : K) (value : V) (m : Map K V)
      → P value
      → Values P m
      → Values P (insert key value m)
  unfolding insert
  Values-insert P key value [] h v = (h, tt)
  Values-insert P key value ((other, old) ∷ rest) h v = elim (Bool-cases (k.same other key)) [
    | inl e ↦ rw e (h, v.1)
    | inr e ↦ elim (Bool-cases (k.before key other)) [
      | inl f ↦ rw (e, f) (h, v)
      | inr f ↦ rw (e, f) (v.0, Values-insert P key value rest h v.1)
    ]
  ]

  pub Values-find {μ} :
      (P : V → Type μ) (key : K) (m : Map K V) (value : V)
      → Values P m
      → find key m ≡ some value
      → P value
  unfolding find
  Values-find P key [] value v h = absurd (cc)
  Values-find P key ((other, old) ∷ rest) value v h = elim (Bool-cases (k.same other key)) [
    | inl e ↦ subst P (some-injective old value (rw e at h)) v.0
    | inr e ↦ Values-find P key rest value v.1 (rw e at h)
  ]
