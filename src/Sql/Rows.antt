-- ===== src/Sql/Rows.antt =====
-- What the statements keep true of a table: of every row, and of the keys that identify a row.
use effect_auth.Prelude.{
  ◌≡◌, refl, ◌∙◌, ◌≢◌, inl, inr, Bool, true, false, List, [], ◌∷◌, ◌++◌, Memᴰ, arith, All, any,
  filter, Bool-cases, if◌then◌else◌,
}
use effect_auth.Sql.{update_where}

module _ {ℓ κ} {A : Type ℓ} (P : A → Type κ) where
  pub All-filter : (p : A → Bool) (xs : List A) → All P xs → All P (filter p xs)
  All-filter p [] h = tt
  All-filter p (x ∷ xs) h = elim (Bool-cases (p x)) [
    | inl e ↦ rw e (h.0, All-filter p xs h.1)
    | inr e ↦ rw e (All-filter p xs h.1)
  ]

  pub All-snoc : (xs : List A) (a : A) → All P xs → P a → All P (xs ++ a ∷ [])
  All-snoc [] a h k = (k, tt)
  All-snoc (x ∷ xs) a h k = (h.0, All-snoc xs a h.1 k)

  pub All-update :
      (p : A → Bool) (f : A → A) (xs : List A)
      → ((x : A) → p x ≡ true → P x → P (f x))
      → All P xs
      → All P (update_where p f xs)
  All-update p f [] step h = tt
  All-update p f (x ∷ xs) step h = elim (Bool-cases (p x)) [
    | inl e ↦ rw e (step x e h.0, All-update p f xs step h.1)
    | inr e ↦ rw e (h.0, All-update p f xs step h.1)
  ]

  pub All-memᴰ : (xs : List A) (a : A) → All P xs → Memᴰ a xs → P a
  All-memᴰ [] a h m = elim m [ ]
  All-memᴰ (x ∷ xs) a h (Memᴰ.head e) = rw e h.0
  All-memᴰ (x ∷ xs) a h (Memᴰ.tail m) = All-memᴰ xs a h.1 m

  pub All-of : (xs : List A) → ((x : A) → Memᴰ x xs → P x) → All P xs
  All-of [] h = tt
  All-of (x ∷ xs) h = (h x (Memᴰ.head refl), All-of xs (λ y m. h y (Memᴰ.tail m)))

pub All-any-false {ℓ} :
    {A : Type ℓ} (p : A → Bool) (xs : List A) → any p xs ≡ false → All (λ x. p x ≡ false) xs
All-any-false p [] h = tt
All-any-false p (x ∷ xs) h = (ground arith, All-any-false p xs (ground arith))

pub All-map_weaken {ℓ κ ι} :
    {A : Type ℓ} {P : A → Type κ} {Q : A → Type ι} (xs : List A)
    → ((x : A) → P x → Q x)
    → All P xs
    → All Q xs
All-map_weaken [] f h = tt
All-map_weaken (x ∷ xs) f h = (f x h.0, All-map_weaken xs f h.1)

-- A statement that addresses no row changes nothing.
pub update_where-none {ℓ} :
    {A : Type ℓ} (p : A → Bool) (f : A → A) (xs : List A)
    → All (λ x. p x ≡ false) xs
    → update_where p f xs ≡ xs
update_where-none p f [] h = refl
update_where-none p f (x ∷ xs) h = ground (arith, update_where-none p f xs h.1)

pub filter-none {ℓ} :
    {A : Type ℓ} (p : A → Bool) (xs : List A) → All (λ x. p x ≡ false) xs → filter p xs ≡ []
filter-none p [] h = refl
filter-none p (x ∷ xs) h = ground (arith, filter-none p xs h.1)

pub All-zip {ℓ κ ι μ} :
    {A : Type ℓ} {P : A → Type κ} {Q : A → Type ι} {R : A → Type μ} (xs : List A)
    → ((x : A) → P x → Q x → R x)
    → All P xs
    → All Q xs
    → All R xs
All-zip [] f h k = tt
All-zip (x ∷ xs) f h k = (f x h.0 k.0, All-zip xs f h.1 k.1)

-- No two rows share the key.
abbrev pub Distinct {ℓ κ} : {A : Type ℓ} {K : Type κ} → (A → K) → List A → Type (ℓ ⊔ κ)
Distinct key [] = Unit
Distinct key (r ∷ rows) = All (λ q. key r ≢ key q) rows × Distinct key rows

module _ {A : Type 0} {K : Type 0} (key : A → K) where
  pub Distinct-filter :
      (p : A → Bool) (rows : List A) → Distinct key rows → Distinct key (filter p rows)
  Distinct-filter p [] h = tt
  Distinct-filter p (r ∷ rows) h = elim (Bool-cases (p r)) [
    | inl e ↦ rw e (All-filter (λ q. key r ≢ key q) p rows h.0, Distinct-filter p rows h.1)
    | inr e ↦ rw e (Distinct-filter p rows h.1)
  ]

  pub Distinct-snoc :
      (rows : List A) (s : A)
      → Distinct key rows
      → All (λ q. key q ≢ key s) rows
      → Distinct key (rows ++ s ∷ [])
  Distinct-snoc [] s h k = (tt, tt)
  Distinct-snoc (r ∷ rows) s h k =
      (All-snoc (λ q. key r ≢ key q) rows s h.0 k.0, Distinct-snoc rows s h.1 k.1)

  pub Distinct-update_same :
      (p : A → Bool) (f : A → A) (rows : List A)
      → ((r : A) → key (f r) ≡ key r)
      → Distinct key rows
      → Distinct key (update_where p f rows)
  Distinct-update_same p f [] same h = tt
  Distinct-update_same p f (r ∷ rows) same h = (
    rw (key_of r) (All-update (λ q. key r ≢ key q) p f rows (λ q _ d e. d (e ∙ same q)) h.0),
    Distinct-update_same p f rows same h.1,
  )
    where
      key_of : (q : A) → key (if p q then f q else q) ≡ key q
      key_of q = elim (Bool-cases (p q)) [ inl e ↦ rw e (same q) | inr e ↦ rw e refl ]
