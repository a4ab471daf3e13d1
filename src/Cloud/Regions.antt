-- ===== src/Cloud/Regions.antt =====
-- Which regions and environment ids `InProcessTunnelParams::from_rce` accepts.
use restate_operator.Base.{
  ◌≡◌, ◌≢◌, ◌↔◌, refl, sym, ◌∙◌, Bool, true, false, not, ◌&&◌, ◌||◌, ◌==◌, ℕ, List, [], ◌∷◌, All,
  arith, is_empty, if◌then◌else◌, Bool-cases, inl, inr, ap,
}
use mathlib.Core.Bool.{false≢true}
use restate_operator.Cloud.{
  all, is_label_char, region_ok, ends_with_dot, has_double_dot, starts_with_dot,
}

-- The labels of a region, as DNS reads it: what stands between the dots.
abbrev prepend : ℕ → List (List ℕ) → List (List ℕ)
prepend c [] = (c ∷ []) ∷ []
prepend c (label ∷ labels) = (c ∷ label) ∷ labels

pub split_dots : List ℕ → List (List ℕ)
split_dots [] = [] ∷ []
split_dots (c ∷ cs) = let rest = split_dots cs in if c == b'.' then [] ∷ rest else prepend c rest

abbrev pub IsLabel : List ℕ → Type 0
IsLabel label = (label ≢ []) × (all is_label_char label ≡ true)

-- Reading from the left, `fresh` at the start of a label.
scan : Bool → List ℕ → Bool
scan fresh [] = not fresh
scan fresh (c ∷ cs) =
    let next = scan true cs in
    let on = scan false cs in if c == b'.' then not fresh && next else is_label_char c && on

scan-fresh : (c : ℕ) (cs : List ℕ) → scan true (c ∷ cs) ≡ (not (c == b'.') && scan false (c ∷ cs))
unfolding scan
scan-fresh c cs = ground arith

-- The step of the next proof: `dot` and `label` test the first code point, `dot'` and `label'` the
-- second, and the rest is about the text from the second on.
scan_step :
    (dot dot' label label' ends double starts rest next on : Bool)
    → (if dot' then next else label' && on)
      ≡ (not ends && not (dot' && starts || double) && ((label' || dot') && rest))
    → (if dot
        then if dot' then false else label' && on
        else label && (if dot' then next else label' && on))
      ≡ (not ends
          && not (dot && dot' || (dot' && starts || double))
          && ((label || dot) && ((label' || dot') && rest)))
scan_step true true label label' ends double starts rest next on h = ground arith
scan_step true false label label' ends double starts rest next on h = ground arith
scan_step false true label label' ends double starts rest next on h = ground arith
scan_step false false label label' ends double starts rest next on h = ground arith

scan-checks :
    (cs : List ℕ)
    → scan false cs ≡ (
        not (ends_with_dot cs)
        && not (has_double_dot cs)
        && all (λ c. is_label_char c || c == b'.') cs)
unfolding scan ends_with_dot has_double_dot
scan-checks [] = refl
scan-checks (c ∷ []) = ground arith
scan-checks (c ∷ d ∷ ds) =
    scan_step (c == b'.') (d == b'.') (is_label_char c) (is_label_char d) (ends_with_dot (d ∷ ds))
      (has_double_dot ds) (starts_with_dot ds) (all (λ c. is_label_char c || c == b'.') ds)
      (scan true ds) (scan false ds) (scan-checks (d ∷ ds))

scan-region_ok : (cs : List ℕ) → scan true cs ≡ region_ok cs
unfolding scan region_ok
scan-region_ok [] = refl
scan-region_ok (c ∷ cs) = unfresh ∙ ground arith
  where
    unfresh : scan true (c ∷ cs) ≡ (
        not (c == b'.')
        && (not (ends_with_dot (c ∷ cs))
            && not (has_double_dot (c ∷ cs))
            && all (λ c. is_label_char c || c == b'.') (c ∷ cs)))
    unfresh = scan-fresh c cs ∙ ap (λ on. not (c == b'.') && on) (scan-checks (c ∷ cs))

abbrev are_labels : List (List ℕ) → Bool
are_labels [] = true
are_labels (label ∷ labels) = not (is_empty label) && all is_label_char label && are_labels labels

-- The first text is what is left of a label that has begun.
abbrev are_rest : List (List ℕ) → Bool
are_rest [] = true
are_rest (label ∷ labels) = all is_label_char label && are_labels labels

are_labels-prepend :
    (c : ℕ) (labels : List (List ℕ))
    → are_labels (prepend c labels) ≡ (is_label_char c && are_rest labels)
are_labels-prepend c [] = ground arith
are_labels-prepend c (label ∷ labels) = ground arith

are_rest-prepend :
    (c : ℕ) (labels : List (List ℕ))
    → are_rest (prepend c labels) ≡ (is_label_char c && are_rest labels)
are_rest-prepend c [] = ground arith
are_rest-prepend c (label ∷ labels) = ground arith

scan-labels :
    (cs : List ℕ)
    → (scan true cs ≡ are_labels (split_dots cs)) × (scan false cs ≡ are_rest (split_dots cs))
unfolding scan split_dots
scan-labels [] = (refl, refl)
scan-labels (c ∷ cs) = elim (Bool-cases (c == b'.')) [
  | inl e ↦ rw e (refl, (scan-labels cs).0)
  | inr e ↦ rw e (
    ap (λ on. is_label_char c && on) (scan-labels cs).1
        ∙ sym (are_labels-prepend c (split_dots cs)),
    ap (λ on. is_label_char c && on) (scan-labels cs).1 ∙ sym (are_rest-prepend c (split_dots cs)),
  )
]

All-labels : (labels : List (List ℕ)) → (are_labels labels ≡ true) ↔ All IsLabel labels
All-labels [] = (λ h. tt, λ h. refl)
All-labels ([] ∷ labels) = (λ h. absurd (false≢true h), λ h. absurd (h.0.0 refl))
All-labels ((c ∷ cs) ∷ labels) =
    (λ h. ground (arith, (All-labels labels).0), λ h. ground (arith, (All-labels labels).1 h.1))

-- A region is accepted exactly if each part between its dots is a label: not empty, and of
-- lowercase letters, digits and dashes.
pub region_ok-labels :
    (region : List ℕ) → (region_ok region ≡ true) ↔ All IsLabel (split_dots region)
region_ok-labels region =
    let (to, from) = All-labels (split_dots region) in
    let e = sym (scan-region_ok region) ∙ (scan-labels region).0 in
    (λ h. to (sym e ∙ h), λ h. e ∙ from h)
