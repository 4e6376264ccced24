-- ===== src/Error/Table.antt =====
-- A chain of tests `if (value == a) return "..."`, and a `switch` over distinct values, as a table.
use ice_coroutines.Base.{
  ℤ, eqb_ℤ, eqb_ℤ_iff, ◌≡◌, refl, sym, ap, ◌∙◌, Bool, true, false, String, List, [], ◌∷◌,
  if◌then◌else◌, arith, ◌⊎◌, inl, inr, Bool-cases, All, ◌||◌, ◌≢◌,
}

-- The text of the first entry that passes a test.
unfoldable pub first_where {ℓ} : {E : Type ℓ} → (E → Bool) → List (E × String) → String → String
first_where test [] otherwise = otherwise
first_where test ((e, text) ∷ rest) otherwise =
    if test e then text else first_where test rest otherwise

-- An entry of the table passes the test.
unfoldable pub has {ℓ} : {E : Type ℓ} → (E → Bool) → List (E × String) → Bool
has test [] = false
has test ((e, text) ∷ rest) = test e || has test rest

module _ {ℓ} {E : Type ℓ} (value : E → ℤ) where
  -- The text of the first entry whose value is the given one.
  unfoldable pub first_text : ℤ → List (E × String) → String → String
  unfolding first_where
  first_text ev = first_where (λ e. eqb_ℤ ev (value e))

  -- Either an entry has the value, and the text is what holds of entries with that value, or none
  -- has it and the text is the last one.
  pub first_text_cases {κ} :
      (P : E → String → Type κ) (ev : ℤ) (table : List (E × String)) (otherwise : String)
      → All (λ p. P p.0 p.1) table
      → ((e : E) × (value e ≡ ev) × P e (first_text ev table otherwise))
        ⊎ (All (λ p. ev ≢ value p.0) table × (first_text ev table otherwise ≡ otherwise))
  unfolding first_text
  first_text_cases P ev [] o h = inr (tt, refl)
  first_text_cases P ev ((e, t) ∷ rest) o h = elim (Bool-cases (eqb_ℤ ev (value e))) [
    | inl hit ↦ inl (e, sym ((eqb_ℤ_iff ev (value e)).0 hit), rw hit h.0)
    | inr miss ↦ rw miss (elim (first_text_cases P ev rest o h.1) [
      | inl (f, v, k) ↦ inl (f, v, k)
      | inr (absent, last) ↦ inr ((λ eq. cc ((eqb_ℤ_iff ev (value e)).1 eq), absent), last)
    ])
  ]

  -- A key of the table is not among the values that no entry has.
  pub has-present :
      (same : E → Bool) (a : E) (ev : ℤ) (table : List (E × String))
      → ((e : E) → same e ≡ true → a ≡ e)
      → has same table ≡ true
      → All (λ p. ev ≢ value p.0) table
      → ev ≢ value a
  unfolding has
  has-present same a ev [] sound h absent eq = cc
  has-present same a ev ((e, t) ∷ rest) sound h absent eq = elim (Bool-cases (same e)) [
    | inl hit ↦ absent.0 (eq ∙ ap value (sound e hit))
    | inr miss ↦ has-present same a ev rest sound (ground arith) absent.1 eq
  ]
