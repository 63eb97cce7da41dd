-- ===== src/Workflows/Framed.antt =====
-- The interpolation of pkg/workflows/exec/interpolation.go reads the results of no step but those
-- that findRefs of pkg/workflows/dependency_graph.go lists.
use chainlink_common.Base.{
  ◌≡◌, refl, inl, inr, List, [], ◌∷◌, ◌++◌, All, Option, Option-cases, Result, ok, err, ◌>>=◌,
  >>=-eq-ok, arith, subst,
}
use chainlink_common.Base.Bytes.{Bytes}
use chainlink_common.Workflows.Items.{
  Item, Items, Fields, text, mapping, object, list, blob, text_map, nil, end, item, no_fields,
  field, invalid_ref, deep_map, map_items, map_fields,
}
use chainlink_common.Workflows.Refs.{token, split_dots, ref_of, find_ref, find_refs}
use chainlink_common.Workflows.Interpolation.{
  StepResult, interpolate_parts, interpolate_key, interpolate_text, find_and_interpolate_all_keys,
}

>>=-cong :
    {E A B : Type 0} (x y : Result E A) {f g : A → Result E B}
    → x ≡ y
    → ((a : A) → f a ≡ g a)
    → (x >>= f) ≡ (y >>= g)
>>=-cong (ok a) y same each = rw (← same) (each a)
>>=-cong (err e) y same each = rw (← same) refl

All-append_left :
    {A : Type 0} (P : A → Type 0) (xs ys : List A) → All P (xs ++ ys) → All P xs × All P ys
All-append_left P [] ys h = (tt, h)
All-append_left P (x ∷ xs) ys h =
    let (front, back) = All-append_left P xs ys h.1 in ((h.0, front), back)

module _ {V : Type 0} (unwrap : V → Option Item)
    (before after : Bytes → Option (StepResult V)) where
  -- Two stores of results agree on some steps.
  abbrev pub Agree : List Bytes → Type 0
  Agree refs = All (λ r. before r ≡ after r) refs

  abbrev SameText : Item → Type 0
  SameText i = interpolate_text unwrap before tt i ≡ interpolate_text unwrap after tt i

  interpolate_parts-Agree :
      (ref : Bytes) (parts : List Bytes)
      → before ref ≡ after ref
      → interpolate_parts unwrap before (ref ∷ parts) ≡ interpolate_parts unwrap after (ref ∷ parts)
  unfolding interpolate_parts
  interpolate_parts-Agree ref [] same = refl
  interpolate_parts-Agree ref (part ∷ parts) same = rw same refl

  ref_of-Agree :
      (refs parts : List Bytes) {found : List Bytes}
      → elim parts [ [] ↦ err invalid_ref | ref ∷ ps ↦ ok (refs ++ (ref ∷ [])) ] ≡ ok found
      → Agree found
      → Agree refs × (interpolate_parts unwrap before parts ≡ interpolate_parts unwrap after parts)
  ref_of-Agree refs [] h agree = cc
  ref_of-Agree refs (ref ∷ parts) {found = found} h agree =
      let is : found ≡ refs ++ (ref ∷ []) = ground arith in
      let (front, back) =
        All-append_left (λ r. before r ≡ after r) refs (ref ∷ []) (subst Agree is agree) in
      (front, interpolate_parts-Agree ref parts back.0)

  find_ref-Agree :
      (refs : List Bytes) (t : Bytes) {found : List Bytes × Item}
      → find_ref refs (text t) ≡ ok found
      → Agree found.0
      → Agree refs × SameText (text t)
  unfolding find_ref interpolate_text interpolate_key ref_of
  find_ref-Agree refs t {found = found} h agree = elim (Option-cases (token t)) [
    | inl plain ↦
        let is : found.0 ≡ refs = ground arith in
        (subst Agree is agree, rw (plain, interpolate_text) refl)
    | inr (inner, matched) ↦
        let known : (ref_of inner refs >>= λ r. ok (r, text t)) ≡ ok found = ground (arith) in
        let (listed, e, k) = >>=-eq-ok (ref_of inner refs) _ known in
        let is : found.0 ≡ listed = ground arith in
        let (front, same) = ref_of-Agree refs (split_dots inner) e (subst Agree is agree) in
        (
          front,
          rw (matched, interpolate_text)
              (>>=-cong (interpolate_parts unwrap before (split_dots inner))
                (interpolate_parts unwrap after (split_dots inner)) same (λ v. refl)),
        )
  ]

  -- What the interpolation of a value, and of a list or a map of them, does with either store.
  abbrev SameItem : Item → Type 0
  SameItem i =
      deep_map (interpolate_text unwrap before) tt i ≡ deep_map (interpolate_text unwrap after) tt i

  abbrev SameItems : Items → Type 0
  SameItems is =
      map_items (interpolate_text unwrap before) tt is
      ≡ map_items (interpolate_text unwrap after) tt is

  abbrev SameFields : Fields → Type 0
  SameFields fs =
      map_fields (interpolate_text unwrap before) tt fs
      ≡ map_fields (interpolate_text unwrap after) tt fs

  mutual
    unfolding deep_map find_ref interpolate_text

    deep_map-Agree :
        (i : Item) (refs : List Bytes) {found : List Bytes × Item}
        → deep_map find_ref refs i ≡ ok found
        → Agree found.0
        → Agree refs × SameItem i
    deep_map-Agree (mapping fs) refs {found = found} h agree =
        let (mapped, e, k) = >>=-eq-ok (map_fields find_ref refs fs) _ h in
        let is : found.0 ≡ mapped.0 = ground arith in
        let (front, same) = map_fields-Agree fs refs e (subst Agree is agree) in
        (
          front,
          >>=-cong (map_fields (interpolate_text unwrap before) tt fs)
              (map_fields (interpolate_text unwrap after) tt fs) same (λ a. refl),
        )
    deep_map-Agree (object fs) refs {found = found} h agree =
        let (mapped, e, k) = >>=-eq-ok (map_fields find_ref refs fs) _ h in
        let is : found.0 ≡ mapped.0 = ground arith in
        let (front, same) = map_fields-Agree fs refs e (subst Agree is agree) in
        (
          front,
          >>=-cong (map_fields (interpolate_text unwrap before) tt fs)
              (map_fields (interpolate_text unwrap after) tt fs) same (λ a. refl),
        )
    deep_map-Agree (list is) refs {found = found} h agree =
        let (mapped, e, k) = >>=-eq-ok (map_items find_ref refs is) _ h in
        let same_refs : found.0 ≡ mapped.0 = ground arith in
        let (front, same) = map_items-Agree is refs e (subst Agree same_refs agree) in
        (
          front,
          >>=-cong (map_items (interpolate_text unwrap before) tt is)
              (map_items (interpolate_text unwrap after) tt is) same (λ a. refl),
        )
    deep_map-Agree (text t) refs h agree = find_ref-Agree refs t h agree
    deep_map-Agree (blob b) refs {found = found} h agree =
        let is : found.0 ≡ refs = ground arith in (subst Agree is agree, refl)
    deep_map-Agree (text_map m) refs {found = found} h agree =
        let is : found.0 ≡ refs = ground arith in (subst Agree is agree, refl)
    deep_map-Agree nil refs h agree = cc

    map_items-Agree :
        (is : Items) (refs : List Bytes) {found : List Bytes × Items}
        → map_items find_ref refs is ≡ ok found
        → Agree found.0
        → Agree refs × SameItems is
    map_items-Agree end refs {found = found} h agree =
        let same_refs : found.0 ≡ refs = ground arith in (subst Agree same_refs agree, refl)
    map_items-Agree (item i is) refs {found = found} h agree =
        let (first, e, k) = >>=-eq-ok (deep_map find_ref refs i) _ h in
        let (rest, e2, k2) = >>=-eq-ok (map_items find_ref first.0 is) _ k in
        let same_refs : found.0 ≡ rest.0 = ground arith in
        let (middle, later) = map_items-Agree is first.0 e2 (subst Agree same_refs agree) in
        let (front, same) = deep_map-Agree i refs e middle in
        (
          front,
          >>=-cong (deep_map (interpolate_text unwrap before) tt i)
              (deep_map (interpolate_text unwrap after) tt i) same
              (λ a.
                >>=-cong (map_items (interpolate_text unwrap before) tt is)
                  (map_items (interpolate_text unwrap after) tt is) later (λ b. refl)),
        )

    map_fields-Agree :
        (fs : Fields) (refs : List Bytes) {found : List Bytes × Fields}
        → map_fields find_ref refs fs ≡ ok found
        → Agree found.0
        → Agree refs × SameFields fs
    map_fields-Agree no_fields refs {found = found} h agree =
        let same_refs : found.0 ≡ refs = ground arith in (subst Agree same_refs agree, refl)
    map_fields-Agree (field key i fs) refs {found = found} h agree =
        let (first, e, k) = >>=-eq-ok (deep_map find_ref refs i) _ h in
        let (rest, e2, k2) = >>=-eq-ok (map_fields find_ref first.0 fs) _ k in
        let same_refs : found.0 ≡ rest.0 = ground arith in
        let (middle, later) = map_fields-Agree fs first.0 e2 (subst Agree same_refs agree) in
        let (front, same) = deep_map-Agree i refs e middle in
        (
          front,
          >>=-cong (deep_map (interpolate_text unwrap before) tt i)
              (deep_map (interpolate_text unwrap after) tt i) same
              (λ a.
                >>=-cong (map_fields (interpolate_text unwrap before) tt fs)
                  (map_fields (interpolate_text unwrap after) tt fs) later (λ b. refl)),
        )

  -- If findRefs lists some steps for a value, then the interpolation of all keys of the value is
  -- the same, with its errors, for any two stores of results that agree on these steps.
  pub find_and_interpolate_all_keys-Agree :
      (input : Item) {refs : List Bytes}
      → find_refs input ≡ ok refs
      → Agree refs
      → find_and_interpolate_all_keys unwrap before input
        ≡ find_and_interpolate_all_keys unwrap after input
  unfolding find_refs find_and_interpolate_all_keys
  find_and_interpolate_all_keys-Agree input {refs = refs} h agree =
      let (found, e, k) = >>=-eq-ok (deep_map find_ref [] input) _ h in
      let is : refs ≡ found.0 = ground arith in
      let (front, same) = deep_map-Agree input [] e (subst Agree is agree) in
      >>=-cong (deep_map (interpolate_text unwrap before) tt input)
        (deep_map (interpolate_text unwrap after) tt input) same (λ a. refl)
