-- ===== src/Launch/Engine/Packages.antt =====
-- What `prepare_package` of backend/launchloop/engine.py makes of an event revision.
use package.text.Mathlib.TextEquality.{eq_iff}
use civic_loop.Launch.{
  PackageStatus, null, flag, number, Value, text, Snapshot, get, get_or, ready_for_review, Audience,
  Package,
}
use civic_loop.Launch.Text.{show, lower}
use civic_loop.Launch.Engine.{required_fields, is_missing, sponsor_price, draft}
use civic_loop.Launch.Engine.{
  audience_for, discount_for, missing_fields, prompt, sponsor_passed, package_status,
  prepare_package,
}
use civic_loop.Prelude.Result.{is_ok, is_ok_lem, ok}
use civic_loop.Prelude.{
  keep-none, subst, sym, ◌∙◌, ◌≢◌, ap, keep, ℕ, false, refl, none, some, String, ◌≡◌, ◌↔◌, Bool,
  true, Option, List, [], ◌∷◌, map, arith, is_some, All,
}

-- The facts that the drafts read by `event[key]`.
abbrev pub read_fields : List String
read_fields = "title" ∷ "city" ∷ "date" ∷ "start_time" ∷ "end_time" ∷ "timezone" ∷ "signup_url" ∷ []

-- The package is ready exactly if no required fact is missing.
package_status_ready :
    (missing : List String) (audience : Option Audience) (passed : Bool)
    → (package_status missing audience passed ≡ ready_for_review)
      ↔ ((missing ≡ []) × (is_some audience ≡ true) × (passed ≡ true))
unfolding package_status
package_status_ready missing audience passed = (λ h. ground arith, λ h. ground arith)

abbrev pub Carries : Snapshot → Type 0
Carries event = All (λ key. is_some (get key event) ≡ true) read_fields

pub draft-returns :
    (event : Snapshot) (kind : String) → Carries event → is_ok (draft event kind) ≡ true
unfolding draft
draft-returns event kind (h1, (h2, (h3, (h4, (h5, (h6, (h7, _))))))) = ground arith

pub prepare_package-returns :
    (event : Snapshot) (price : ℕ)
    → Carries event
    → get "general_ticket_price" event ≡ some (number price)
    → (p : Package) × (prepare_package event ≡ ok p)
unfolding prepare_package sponsor_price
prepare_package-returns event price (h1, (h2, (h3, (h4, (h5, (h6, (h7, _))))))) h =
    let i = draft-returns event "Invitation" (h1, (h2, (h3, (h4, (h5, (h6, (h7, tt))))))) in
    let r = draft-returns event "Reminder" (h1, (h2, (h3, (h4, (h5, (h6, (h7, tt))))))) in
    is_ok_lem _ (ground (arith, i, r, h))

-- The price is a required fact, and yet a revision without it is never given a package that asks
-- for it: `prepare_package` raises, whatever else the revision says, as soon as the sponsor's
-- tier is known.
pub prepare_package-price_missing :
    (event : Snapshot) (discount : ℕ)
    → is_missing (get "general_ticket_price" event) ≡ true
    → discount_for (lower (show (get_or (text "") (get "sponsor_tier" event)))) ≡ some discount
    → is_ok (prepare_package event) ≡ false
unfolding prepare_package sponsor_price
prepare_package-price_missing event discount h d = ground arith

prepare_package_fields :
    (event : Snapshot) (p : Package)
    → prepare_package event ≡ ok p
    → (p.missing_fields ≡ missing_fields event)
      × (p.questions ≡ map (λ key. (key, prompt key)) (missing_fields event))
      × (p.status
          ≡ package_status
              (missing_fields event)
              (audience_for (get "region" event) (get "country" event))
              (sponsor_passed
                (discount_for (lower (show (get_or (text "") (get "sponsor_tier" event)))))
                (get "sponsor_discount_percent" event)))
unfolding prepare_package
prepare_package_fields event p h = ground arith

abbrev text_of : Option Value → String
text_of (some (text s)) = s
text_of _ = ""

audience_for-some :
    (region country : Option Value)
    → (is_some (audience_for region country) ≡ true)
      ↔ ((region ≡ some (text "NY")) × (country ≡ some (text "US")))
unfolding audience_for
audience_for-some none country = (λ h. ground arith, λ h. ground arith)
audience_for-some (some r) none = (λ h. ground arith, λ h. ground arith)
audience_for-some (some (text r)) (some (text c)) = (
  λ h. (
    ap (λ s. some (text s)) ((eq_iff r "NY").0 (ground arith)),
    ap (λ s. some (text s)) ((eq_iff c "US").0 (ground arith)),
  ),
  λ (h, k). ground (arith, (eq_iff r "NY").1 (ap text_of h), (eq_iff c "US").1 (ap text_of k)),
)
audience_for-some (some null) (some c) = (λ h. ground arith, λ h. ground arith)
audience_for-some (some (flag _)) (some c) = (λ h. ground arith, λ h. ground arith)
audience_for-some (some (number _)) (some c) = (λ h. ground arith, λ h. ground arith)
audience_for-some (some (text r)) (some null) = (λ h. ground arith, λ h. ground arith)
audience_for-some (some (text r)) (some (flag _)) = (λ h. ground arith, λ h. ground arith)
audience_for-some (some (text r)) (some (number _)) = (λ h. ground arith, λ h. ground arith)

package_status_needs :
    (missing : List String) (audience : Option Audience) (passed : Bool)
    → (package_status missing audience passed ≡ PackageStatus.needs_input) ↔ (missing ≢ [])
unfolding package_status
package_status_needs missing audience passed = (λ h. ground arith, λ h. ground arith)

firsts :
    (keys : List String)
    → map (λ (q : String × String). q.0) (map (λ key. (key, prompt key)) keys) ≡ keys
firsts [] = refl
firsts (key ∷ keys) = ap (λ rest. key ∷ rest) (firsts keys)

-- The sponsor's discount that the revision states is the one of its tier.
abbrev pub HasSponsor : Snapshot → Type 0
HasSponsor event =
    sponsor_passed (discount_for (lower (show (get_or (text "") (get "sponsor_tier" event)))))
      (get "sponsor_discount_percent" event)
    ≡ true

abbrev pub Described : Snapshot → Package → Type 0
Described event p =
    (p.missing_fields ≡ keep (λ key. is_missing (get key event)) required_fields)
    × (map (λ (q : String × String). q.0) p.questions ≡ p.missing_fields)
    × ((p.status ≡ PackageStatus.needs_input) ↔ (p.missing_fields ≢ []))
    × ((p.status ≡ ready_for_review) ↔ (
        All (λ key. is_missing (get key event) ≡ false) required_fields
        × (get "region" event ≡ some (text "NY"))
        × (get "country" event ≡ some (text "US"))
        × HasSponsor event))

-- What a returned package says: it lists the required facts that are missing, with one question
-- for each; it needs input exactly if there is one; and it is ready for review exactly if none
-- is missing, the event is in New York, US, and the stated discount is the one of the sponsor's
-- tier.
pub prepare_package-Status :
    (event : Snapshot) (p : Package) → prepare_package event ≡ ok p → Described event p
unfolding missing_fields
prepare_package-Status event p h =
    let (m, q, s) = prepare_package_fields event p h in
    (
      m,
      ap (map (λ (q : String × String). q.0)) q ∙ firsts (missing_fields event) ∙ sym m,
      (
        λ e. subst (λ t. t ≢ []) (sym m) ((package_status_needs _ _ _).0 (sym s ∙ e)),
        λ e. s ∙ (package_status_needs _ _ _).1 (subst (λ t. t ≢ []) m e),
      ),
      (
        λ e.
            let (none_missing, matched, passed) = (package_status_ready _ _ _).0 (sym s ∙ e) in
            let (ny, us) = (audience_for-some _ _).0 matched in
            (
              (keep-none (λ key. is_missing (get key event)) required_fields).0 none_missing,
              ny,
              us,
              passed,
            ),
        λ (none_missing, ny, us, passed).
            s
            ∙ (package_status_ready _ _ _).1 (
              (keep-none (λ key. is_missing (get key event)) required_fields).1 none_missing,
              (audience_for-some _ _).1 (ny, us),
              passed,
            ),
      ),
    )
