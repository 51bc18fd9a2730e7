-- ===== src/Launch/Owner/Packages.antt =====
-- `validate_facts` and `prepare_owner_package` of backend/launchloop/owner_events.py.
use civic_loop.Launch.Engine.{is_empty}
use civic_loop.Prelude.Result.{ok}
use civic_loop.Launch.Text.Stripped.{strip_twice, count-strip}
use civic_loop.Launch.{
  PackageStatus, ready_for_review, Package, text, Value, null, flag, number, Snapshot,
}
use civic_loop.Launch.Owner.{
  fact, own_fact, own_facts, is_invalid, owner_missing, prepare_owner_package, Calendar, facts_ok,
  validate_facts, fact_fields, Facts, fact_of, read_facts, as_snapshot,
}
use civic_loop.Prelude.{
  All-imp, keep-none, str_eq-false, ◌∙◌, ◌&&◌, ◌||◌, List, is_none, ◌≢◌, All, of_some, subst, refl,
  sym, Bool, true, false, Option, none, str_eq, any, if◌then◌else◌, String, ◌≡◌, some, [], ◌∷◌,
  arith,
}

-- A fact that was read is read again as it is.
fact_of_again :
    (key : String) (raw : Value) (v : String)
    → fact_of key raw ≡ some v
    → fact_of key (text v) ≡ some v
fact_of_again key null v h = ground arith
fact_of_again key (flag _) v h = ground arith
fact_of_again key (number _) v h = ground arith
fact_of_again key (text raw) v h = ground (arith, h, count-strip raw, strip_twice raw)

read_step :
    (key : String) (known : Bool) (f : Option String) (tail : Option Facts) (facts : Facts)
    → (if known
        then elim f [
          | none ↦ none
          | some v ↦ elim tail [ none ↦ none | some rest ↦ some ((key, v) ∷ rest) ]
        ]
        else none)
      ≡ some facts
    → (v : String) × (rest : Facts) × (known ≡ true)
      × (f ≡ some v)
      × (tail ≡ some rest)
      × (facts ≡ (key, v) ∷ rest)
read_step key true (some v) (some rest) facts h = (v, rest, refl, refl, refl, sym (of_some h))
read_step key true (some v) none facts h = ground arith
read_step key true none tail facts h = ground arith
read_step key false f tail facts h = ground arith

read_facts_again :
    (value : Snapshot) (facts : Facts)
    → read_facts value ≡ some facts
    → read_facts (as_snapshot facts) ≡ some facts
unfolding read_facts
read_facts_again [] facts h = subst (λ fs. read_facts (as_snapshot fs) ≡ some fs) (of_some h) refl
read_facts_again ((key, raw) ∷ rest) facts h =
    let (v, tail, known, read, tail_read, eq) =
      read_step key (any (λ k. str_eq k key) fact_fields) (fact_of key raw) (read_facts rest) facts
        h in
    let again = fact_of_again key raw v read in
    let tail_again = read_facts_again rest tail tail_read in
    subst (λ fs. read_facts (as_snapshot fs) ≡ some fs) (sym eq)
      (ground (arith, known, again, tail_again))

validate_facts_read :
    (c : Calendar) (value : Snapshot) (facts : Facts)
    → validate_facts c value ≡ some facts
    → (read_facts value ≡ some facts) × (facts_ok c facts ≡ true)
unfolding validate_facts
validate_facts_read c value facts h = ground arith

none_missing :
    (missing : List String)
    → (if is_empty missing then ready_for_review else PackageStatus.needs_input) ≡ ready_for_review
    → missing ≡ []
none_missing missing h = ground arith

or_false : (x y : Bool) → x || y ≡ false → (x ≡ false) × (y ≡ false)
or_false x y h = ground arith

and_true : (x : Bool) → x && true ≡ false → x ≡ false
and_true x h = ground arith

module _ (c : Calendar) where
  -- Facts that were accepted are stripped, within their lengths, and accepted again as they are.
  pub validate_facts_again :
      (value : Snapshot) (facts : Facts)
      → validate_facts c value ≡ some facts
      → validate_facts c (as_snapshot facts) ≡ some facts
  unfolding validate_facts
  validate_facts_again value facts h =
      let (read, checked) = validate_facts_read c value facts h in
      ground (arith, read_facts_again value facts read, checked)

  owner_package_fields :
      (snapshot : Snapshot) (p : Package)
      → prepare_owner_package c snapshot ≡ ok p
      → (p.missing_fields ≡ owner_missing c snapshot)
        × (p.status ≡ (
            if is_empty (owner_missing c snapshot)
            then ready_for_review
            else PackageStatus.needs_input))
  unfolding prepare_owner_package
  owner_package_fields snapshot p h = ground arith

  -- An owner's package that is ready for review has all twelve facts: none is blank, each is
  -- accepted alone by `validate_facts`, and together they are accepted.
  pub prepare_owner_package-Ready :
      (snapshot : Snapshot) (p : Package)
      → prepare_owner_package c snapshot ≡ ok p
      → p.status ≡ ready_for_review
      → All
          (λ key. (fact key (own_facts c snapshot) ≢ "") × ((own_fact c snapshot key).1 ≡ false))
          fact_fields
        × (is_none (validate_facts c (as_snapshot (own_facts c snapshot))) ≡ false)
  unfolding owner_missing is_invalid
  prepare_owner_package-Ready snapshot p h s =
      let (_, status) = owner_package_fields snapshot p h in
      let flawless =
        (keep-none (λ key. str_eq (fact key (own_facts c snapshot)) "" || is_invalid c snapshot key)
            fact_fields).0
          (none_missing (owner_missing c snapshot) (sym status ∙ s)) in
      (
        All-imp
            (λ key.
              str_eq (fact key (own_facts c snapshot)) "" || is_invalid c snapshot key ≡ false)
            (λ key. (fact key (own_facts c snapshot) ≢ "") × ((own_fact c snapshot key).1 ≡ false))
            (λ key k.
              ((str_eq-false _ _).1 (or_false _ _ k).0, (or_false _ _ (or_false _ _ k).1).0))
            fact_fields flawless,
        and_true _ (or_false _ _ (or_false _ _ flawless.1.1.0).1).1,
      )
