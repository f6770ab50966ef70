-- ===== src/Market/Rows.antt =====
-- The writes to `mm_quotes`, and what they leave of the active rows.
use mathlib.Core.Bool.{true≢false}
use options_protocol_backend.Prelude.{
  Bool, true, false, ◌||◌, ◌≡◌, ◌≢◌, refl, sym, ap, ◌∙◌, inl, inr, List, [], ◌∷◌, any, filter, All,
  Elem, Bool-cases, arith,
}
use options_protocol_backend.Prelude.Text.{Text, text_eq, text_eq_iff}
use options_protocol_backend.Market.{QuoteRow, deactivate}
use options_protocol_backend.Market.Submit.{same_key, put_row, put_rows, has_repeat, is_replaced}

-- every active row
abbrev pub Live : (QuoteRow → Type 0) → List QuoteRow → Type 0
Live P rows = All (λ r. r.is_active ≡ true → P r) rows

module _ (P : QuoteRow → Type 0) where
  pub Live-deactivate :
      (p : QuoteRow → Bool) (rows : List QuoteRow)
      → Live P rows
      → Live (λ r. P r × (p r ≡ false)) (deactivate p rows)
  unfolding deactivate
  Live-deactivate p [] h = tt
  Live-deactivate p (r ∷ rs) (here, h) = elim (Bool-cases (p r)) [
    | inl hit ↦ rw hit ((λ t. absurd (true≢false (sym t))), Live-deactivate p rs h)
    | inr miss ↦ rw miss ((λ t. (here t, miss)), Live-deactivate p rs h)
  ]

  pub Live-filter :
      (p : QuoteRow → Bool) (rows : List QuoteRow) → Live P rows → Live P (filter p rows)
  Live-filter p [] h = tt
  Live-filter p (r ∷ rs) (here, h) = elim (Bool-cases (p r)) [
    | inl e ↦ rw e (here, Live-filter p rs h)
    | inr e ↦ rw e (Live-filter p rs h)
  ]

  Live-put_row : (r : QuoteRow) (rows : List QuoteRow) → P r → Live P rows → Live P (put_row r rows)
  unfolding put_row
  Live-put_row r [] new h = ((λ _. new), tt)
  Live-put_row r (x ∷ xs) new (here, h) = elim (Bool-cases (same_key r x)) [
    | inl e ↦ rw e ((λ _. new), h)
    | inr e ↦ rw e (here, Live-put_row r xs new h)
  ]

  pub Live-put_rows : (rs rows : List QuoteRow) → All P rs → Live P rows → Live P (put_rows rs rows)
  unfolding put_rows
  Live-put_rows [] rows new h = h
  Live-put_rows (r ∷ rs) rows (n, new) h =
      Live-put_rows rs (put_row r rows) new (Live-put_row r rows n h)

Elem-put_row : (r : QuoteRow) (rows : List QuoteRow) → Elem r (put_row r rows)
unfolding put_row
Elem-put_row r [] = inl refl
Elem-put_row r (x ∷ xs) = elim (Bool-cases (same_key r x)) [
  | inl e ↦ rw e (inl refl)
  | inr e ↦ rw e (inr (Elem-put_row r xs))
]

same_key_sym : (r s : QuoteRow) → same_key r s ≡ false → same_key s r ≡ false
same_key_sym r s h =
    ground (arith, text_eq_iff r.mm_address s.mm_address, text_eq_iff s.mm_address r.mm_address)

put_row-keeps :
    (r s : QuoteRow) (rows : List QuoteRow)
    → same_key s r ≡ false
    → Elem r rows
    → Elem r (put_row s rows)
unfolding put_row
put_row-keeps r s [] other m = elim m [ ]
put_row-keeps r s (x ∷ xs) other (inl e) = rw (ap (same_key s) (sym e) ∙ other) (inl e)
put_row-keeps r s (x ∷ xs) other (inr m) = elim (Bool-cases (same_key s x)) [
  | inl e ↦ rw e (inr m)
  | inr e ↦ rw e (inr (put_row-keeps r s xs other m))
]

or_false : (a b : Bool) → (a || b) ≡ false → (a ≡ false) × (b ≡ false)
or_false true b h = absurd (true≢false h)
or_false false b h = (refl, h)

put_rows-keeps :
    (r : QuoteRow) (rs rows : List QuoteRow)
    → any (same_key r) rs ≡ false
    → Elem r rows
    → Elem r (put_rows rs rows)
unfolding put_rows
put_rows-keeps r [] rows h m = m
put_rows-keeps r (s ∷ rs) rows h m =
    let (here, rest) = or_false (same_key r s) (any (same_key r) rs) h in
    put_rows-keeps r rs (put_row s rows) rest (put_row-keeps r s rows (same_key_sym r s here) m)

-- Where no key is named twice, each row is in the table after the upsert.
pub put_rows-All :
    (rs rows : List QuoteRow) → has_repeat rs ≡ false → All (λ r. Elem r (put_rows rs rows)) rs
unfolding put_rows has_repeat
put_rows-All [] rows h = tt
put_rows-All (r ∷ rs) rows h =
    let (here, rest) = or_false (any (same_key r) rs) (has_repeat rs) h in
    (
      put_rows-keeps r rs (put_row r rows) here (Elem-put_row r rows),
      put_rows-All rs (put_row r rows) rest,
    )

pub Elem-filter :
    (p : QuoteRow → Bool) (r : QuoteRow) (rows : List QuoteRow)
    → p r ≡ true
    → Elem r rows
    → Elem r (filter p rows)
Elem-filter p r [] h m = elim m [ ]
Elem-filter p r (x ∷ xs) h (inl e) = rw (ap p (sym e) ∙ h) (inl e)
Elem-filter p r (x ∷ xs) h (inr m) = elim (Bool-cases (p x)) [
  | inl e ↦ rw e (inr (Elem-filter p r xs h m))
  | inr e ↦ rw e (Elem-filter p r xs h m)
]

-- The maker has a new quote for none of the row's oToken.
abbrev pub Untouched : Text → List QuoteRow → QuoteRow → Type 0
Untouched mm_id rows r =
    r.mm_address ≡ mm_id → All (λ (s : QuoteRow). s.otoken_address ≢ r.otoken_address) rows

not-any :
    (r : QuoteRow) (rows : List QuoteRow)
    → any (λ s. text_eq s.otoken_address r.otoken_address) rows ≡ false
    → All (λ (s : QuoteRow). s.otoken_address ≢ r.otoken_address) rows
not-any r [] h = tt
not-any r (s ∷ rs) h =
    let (here, rest) = or_false (text_eq s.otoken_address r.otoken_address) _ h in
    (
      (λ e. true≢false (sym ((text_eq_iff s.otoken_address r.otoken_address).1 e) ∙ here)),
      not-any r rs rest,
    )

pub is_replaced-Untouched :
    (mm_id : Text) (rows : List QuoteRow) (r : QuoteRow)
    → r.is_active ≡ true
    → is_replaced mm_id rows r ≡ false
    → Untouched mm_id rows r
unfolding is_replaced
is_replaced-Untouched mm_id rows r active h same =
    not-any r rows (ground (arith, active, h, (text_eq_iff r.mm_address mm_id).1 same))
