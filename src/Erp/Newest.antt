-- ===== src/Erp/Newest.antt =====
-- The specification of many deliveries: a deal ends at the newest version that was delivered.
use salesforce_erp_sync.Common.{
  String, ◌≡◌, refl, ◌∙◌, Option, none, some, List, [], ◌∷◌, arith, ◌⊎◌, ◌↔◌, inl, inr, str_eq,
  eq_iff, eq_refl, Bool-cases, ℤ, ltb_ℤ, if◌then◌else◌,
}
use salesforce_erp_sync.Erp.Writer.{Order}
use salesforce_erp_sync.Erp.History.{AtMost, AtMost-refl, AtMost-trans, AtMost-antisymm}

abbrev pub newer : Option ℤ → ℤ → Option ℤ
newer none v = some v
newer (some u) v = some (if ltb_ℤ u v then v else u)

-- One delivery raises its deal's version and no other's.
abbrev pub raise_to : (String → Option ℤ) → Order → String → Option ℤ
raise_to f order id = if str_eq order.order_id id then newer (f id) order.version else f id

-- The versions after all the deliveries, in their order.
unfoldable pub newest : (String → Option ℤ) → List Order → String → Option ℤ
newest f [] id = f id
newest f (o ∷ os) id = newest (raise_to f o) os id

-- One of the orders is of this deal and version.
abbrev pub Delivered : String → ℤ → List Order → Type 0
Delivered id v [] = ⊥
Delivered id v (o ∷ os) = ((o.order_id ≡ id) × (o.version ≡ v)) ⊎ Delivered id v os

AtMost-newer : (u : Option ℤ) (v : ℤ) → AtMost u (newer u v)
AtMost-newer none v = tt
AtMost-newer (some u) v = ground arith

newer_bound : (u : Option ℤ) (v : ℤ) → AtMost (some v) (newer u v)
newer_bound none v = omega arith
newer_bound (some u) v = ground arith

newer_cases : (u : Option ℤ) (v : ℤ) → (newer u v ≡ u) ⊎ (newer u v ≡ some v)
newer_cases none v = inr refl
newer_cases (some u) v = ground arith

AtMost-raise_to :
    (f : String → Option ℤ) (o : Order) (id : String) → AtMost (f id) (raise_to f o id)
AtMost-raise_to f o id = elim (Bool-cases (str_eq o.order_id id)) [
  | inl same ↦ rw same (AtMost-newer (f id) o.version)
  | inr differs ↦ rw differs (AtMost-refl (f id))
]

AtMost-newest :
    (f : String → Option ℤ) (os : List Order) (id : String) → AtMost (f id) (newest f os id)
unfolding newest
AtMost-newest f [] id = AtMost-refl (f id)
AtMost-newest f (o ∷ os) id =
    AtMost-trans (f id) (raise_to f o id) (newest (raise_to f o) os id) (AtMost-raise_to f o id)
      (AtMost-newest (raise_to f o) os id)

-- No delivered version is above the newest.
newest_bound :
    (f : String → Option ℤ) (os : List Order) (id : String) (v : ℤ)
    → Delivered id v os
    → AtMost (some v) (newest f os id)
unfolding newest
newest_bound f [] id v m = absurd m
newest_bound f (o ∷ os) id v (inl (same, this)) =
    AtMost-trans (some v) (raise_to f o id) (newest (raise_to f o) os id)
      (rw (← same, ← this, eq_refl o.order_id) (newer_bound (f o.order_id) o.version))
      (AtMost-newest (raise_to f o) os id)
newest_bound f (o ∷ os) id v (inr m) = newest_bound (raise_to f o) os id v m

raise_to_cases :
    (f : String → Option ℤ) (o : Order) (id : String)
    → (raise_to f o id ≡ f id) ⊎ ((o.order_id ≡ id) × (raise_to f o id ≡ some o.version))
raise_to_cases f o id = elim (Bool-cases (str_eq o.order_id id)) [
  | inl same ↦ rw same (elim (newer_cases (f id) o.version) [
    | inl kept ↦ inl kept
    | inr new ↦ inr ((eq_iff o.order_id id).0 same, new)
  ])
  | inr differs ↦ rw differs (inl refl)
]

-- The newest is the version from before, or one that was delivered.
newest_attained :
    (f : String → Option ℤ) (os : List Order) (id : String)
    → (newest f os id ≡ f id) ⊎ ((v : ℤ) × (newest f os id ≡ some v) × Delivered id v os)
unfolding newest
newest_attained f [] id = inl refl
newest_attained f (o ∷ os) id = elim (newest_attained (raise_to f o) os id) [
  | inr (v, e, m) ↦ inr (v, e, inr m)
  | inl kept ↦ elim (raise_to_cases f o id) [
    | inl same ↦ inl (kept ∙ same)
    | inr (this, new) ↦ inr (o.version, kept ∙ new, inl (this, refl))
  ]
]

newest-AtMost-newest :
    (f : String → Option ℤ) (os os' : List Order)
    → ((id : String) (v : ℤ) → Delivered id v os → Delivered id v os')
    → (id : String) → AtMost (newest f os id) (newest f os' id)
newest-AtMost-newest f os os' sub id = elim (newest_attained f os id) [
  | inl kept ↦ rw kept (AtMost-newest f os' id)
  | inr (v, e, m) ↦ rw e (newest_bound f os' id v (sub id v m))
]

-- The same deliveries in another order, and any number of times, give the same versions.
pub newest_same :
    (f : String → Option ℤ) (os os' : List Order)
    → ((id : String) (v : ℤ) → Delivered id v os ↔ Delivered id v os')
    → (id : String) → newest f os id ≡ newest f os' id
newest_same f os os' same id =
    AtMost-antisymm _ _ (newest-AtMost-newest f os os' (λ i v. (same i v).0) id)
      (newest-AtMost-newest f os' os (λ i v. (same i v).1) id)
