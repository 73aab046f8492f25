-- ===== src/Monitor/Allowed.antt =====
-- The labels, points and payloads of internal/azuremonitor/metrics.go whose labels are all allowed.
use password_hook_service.Prelude.{
  true, List, [], ◌∷◌, map, ◌≡◌, ◌==◌, length, any, is_empty, Text, same_text, trim_space,
  Bool-cases, inl, inr, All, All-append,
}
use password_hook_service.Monitor.{
  Labels, Arithmetic, Point, Points, text_less, sort_by, insert_by, sorted_label_names, point_at,
  put_point, absorb, add, allowed_names, keep_label, allowed_from, allowed_labels, metric_key,
}
use password_hook_service.Monitor.Flush.{
  Options, Payload, group_key, group_into, groups_from, payload_of, group_payload, payloads_of,
  azure_monitor_payloads,
}

unfoldable pub AllowedName : Text → Type 0
AllowedName name = any (same_text name) allowed_names ≡ true

abbrev pub AllowedLabels : Labels → Type 0
AllowedLabels labels = All (λ l. AllowedName l.0) labels

keep_label-AllowedLabels :
    (out : Labels) (key value : Text) → AllowedLabels out → AllowedLabels (keep_label out key value)
unfolding keep_label AllowedName
keep_label-AllowedLabels out key value h = elim (Bool-cases (any (same_text key) allowed_names)) [
  | inl known ↦ elim (Bool-cases (is_empty (trim_space value))) [
    | inl blank ↦ rw (known, blank) h
    | inr solid ↦
        rw (known, solid)
          (All-append (λ l. AllowedName l.0) out ((key, trim_space value) ∷ []) h (known, tt))
  ]
  | inr unknown ↦ rw unknown h
]

allowed_from-AllowedLabels :
    (out labels : Labels) → AllowedLabels out → AllowedLabels (allowed_from out labels)
unfolding allowed_from
allowed_from-AllowedLabels out [] h = h
allowed_from-AllowedLabels out ((key, value) ∷ labels) h =
    let kept = keep_label-AllowedLabels out key value h in
    elim (Bool-cases (length (keep_label out key value) == 9)) [
      | inl full ↦ rw full kept
      | inr more ↦ rw more (allowed_from-AllowedLabels (keep_label out key value) labels kept)
    ]

module _ {A : Type 0} (key : A → Text) (P : A → Type 0) where
  insert_by-All : (x : A) (xs : List A) → P x → All P xs → All P (insert_by key x xs)
  unfolding insert_by
  insert_by-All x [] px _ = (px, tt)
  insert_by-All x (y ∷ ys) px (py, h) = elim (Bool-cases (text_less (key y) (key x))) [
    | inl later ↦ rw later (py, insert_by-All x ys px h)
    | inr here ↦ rw here (px, (py, h))
  ]

  sort_by-All : (xs : List A) → All P xs → All P (sort_by key xs)
  unfolding sort_by
  sort_by-All [] _ = tt
  sort_by-All (x ∷ xs) (px, h) = insert_by-All x (sort_by key xs) px (sort_by-All xs h)

names-Allowed : (labels : Labels) → AllowedLabels labels → All AllowedName (map (λ l. l.0) labels)
names-Allowed [] _ = tt
names-Allowed (l ∷ labels) (e, h) = (e, names-Allowed labels h)

sorted-Allowed :
    (labels : Labels) → AllowedLabels labels → All AllowedName (sorted_label_names labels)
unfolding sorted_label_names
sorted-Allowed labels h =
    sort_by-All (λ name. name) AllowedName (map (λ l. l.0) labels) (names-Allowed labels h)

module _ {F : Type 0} where
  abbrev pub AllowedPoint : Point F → Type 0
  AllowedPoint p = AllowedLabels p.labels

  abbrev pub AllowedPoints : Points F → Type 0
  AllowedPoints points = All (λ e. AllowedPoint e.1) points

  abbrev AllowedGroups : List (Text × List (Point F)) → Type 0
  AllowedGroups groups = All (λ g. All AllowedPoint g.1) groups

  abbrev pub AllowedPayload : Payload F → Type 0
  AllowedPayload payload = All AllowedName payload.dim_names

  put_point-Allowed :
      (key : Text) (p : Point F) (points : Points F)
      → AllowedPoint p
      → AllowedPoints points
      → AllowedPoints (put_point key p points)
  unfolding put_point
  put_point-Allowed key p [] hp _ = (hp, tt)
  put_point-Allowed key p ((k, q) ∷ points) hp (hq, h) = elim (Bool-cases (same_text k key)) [
    | inl same ↦ rw same (hp, h)
    | inr other ↦ rw other (hq, put_point-Allowed key p points hp h)
  ]

  group_into-Allowed :
      (key : Text) (p : Point F) (groups : List (Text × List (Point F)))
      → AllowedPoint p
      → AllowedGroups groups
      → AllowedGroups (group_into key p groups)
  unfolding group_into
  group_into-Allowed key p [] hp _ = ((hp, tt), tt)
  group_into-Allowed key p ((k, group) ∷ groups) hp (hg, h) = elim (Bool-cases (same_text k key)) [
    | inl same ↦ rw same (All-append AllowedPoint group (p ∷ []) hg (hp, tt), h)
    | inr other ↦ rw other (hg, group_into-Allowed key p groups hp h)
  ]

  groups_from-Allowed :
      (groups : List (Text × List (Point F))) (points : List (Point F))
      → AllowedGroups groups
      → All AllowedPoint points
      → AllowedGroups (groups_from groups points)
  unfolding groups_from
  groups_from-Allowed groups [] h _ = h
  groups_from-Allowed groups (p ∷ points) h (hp, rest) =
      groups_from-Allowed (group_into (group_key p) p groups) points
        (group_into-Allowed (group_key p) p groups hp h) rest

  group_payload-Allowed :
      (o : Options) (stamp : Text) (points : List (Point F))
      → All AllowedPoint points
      → All AllowedPayload (group_payload o stamp points)
  unfolding group_payload payload_of
  group_payload-Allowed o stamp [] _ = tt
  group_payload-Allowed o stamp (p ∷ points) (hp, _) = (sorted-Allowed p.labels hp, tt)

  payloads_of-Allowed :
      (o : Options) (stamp : Text → Text) (groups : List (Text × List (Point F)))
      → AllowedGroups groups
      → All AllowedPayload (payloads_of o stamp groups)
  unfolding payloads_of
  payloads_of-Allowed o stamp [] _ = tt
  payloads_of-Allowed o stamp ((key, group) ∷ groups) (hg, h) =
      let point_key : Point F → Text = λ p. metric_key p.name p.labels in
      let sorted = sort_by point_key group in
      All-append AllowedPayload (group_payload o (stamp key) sorted) (payloads_of o stamp groups)
        (group_payload-Allowed o (stamp key) sorted (sort_by-All point_key AllowedPoint group hg))
        (payloads_of-Allowed o stamp groups h)

  pub payloads-Allowed :
      (o : Options) (stamp : Text → Text) (points : List (Point F))
      → All AllowedPoint points
      → All AllowedPayload (azure_monitor_payloads o stamp points)
  unfolding azure_monitor_payloads
  payloads-Allowed o stamp points h =
      let groups = groups_from [] points in
      payloads_of-Allowed o stamp (sort_by (λ g. g.0) groups) (
        sort_by-All (λ g. g.0) (λ g. All AllowedPoint g.1) groups
          (groups_from-Allowed [] points tt h))

  pub points-Allowed :
      (points : Points F) → AllowedPoints points → All AllowedPoint (map (λ e. e.1) points)
  points-Allowed [] _ = tt
  points-Allowed (e ∷ points) (he, h) = (he, points-Allowed points h)

  point_at-Allowed :
      (a : Arithmetic F) (key : Text) (points : Points F)
      → AllowedPoints points
      → AllowedPoint (point_at a key points)
  unfolding point_at
  point_at-Allowed a key [] _ = tt
  point_at-Allowed a key ((k, p) ∷ points) (hp, h) = elim (Bool-cases (same_text k key)) [
    | inl same ↦ rw same hp
    | inr other ↦ rw other (point_at-Allowed a key points h)
  ]

  absorb-Allowed :
      (a : Arithmetic F) (name : Text) (labels : Labels) (value : F) (p : Point F)
      → AllowedLabels labels
      → AllowedPoint p
      → AllowedPoint (absorb a name labels value p)
  unfolding absorb
  absorb-Allowed a name labels value p hl hp = elim (Bool-cases p.observed) [
    | inl seen ↦ rw seen hp
    | inr fresh ↦ rw fresh hl
  ]

  pub add-Allowed :
      (a : Arithmetic F) (name : Text) (labels : Labels) (value : F) (points : Points F)
      → AllowedPoints points
      → AllowedPoints (add a name labels value points)
  unfolding add allowed_labels
  add-Allowed a name labels value points h =
      let kept = allowed_from [] labels in
      let allowed = allowed_from-AllowedLabels [] labels tt in
      let key = metric_key (trim_space name) kept in
      elim (Bool-cases (is_empty (trim_space name))) [
        | inl blank ↦ rw blank h
        | inr named ↦ rw named (
            put_point-Allowed key (absorb a (trim_space name) kept value (point_at a key points))
              points
              (absorb-Allowed a (trim_space name) kept value (point_at a key points) allowed
                (point_at-Allowed a key points h))
              h)
      ]
