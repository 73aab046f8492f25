-- ===== src/Monitor.antt =====
-- The metric recorder of internal/azuremonitor/metrics.go. A float64 is a value of a type with the comparison and
-- the sum that the recorder uses. A map is a list of its entries in an order of iteration; the mutex makes each
-- method one step.
pub mod Flush
pub mod Sums
pub mod Allowed
pub mod Kept
pub mod Private
use password_hook_service.Prelude.{
  ℕ, ℤ, ◌+◌, Bool, true, false, ◌||◌, ◌&&◌, not, List, [], ◌∷◌, ◌++◌, map, if◌then◌else◌, ◌==◌, ltb,
  length, any, is_empty, Text, codes, same_text, trim_space,
}

abbrev pub Labels : Type 0
Labels = List (Text × Text)

-- The order of Go strings; that of UTF-8 is that of the code points.
unfoldable text_less : Text → Text → Bool
text_less [] [] = false
text_less [] (b ∷ t) = true
text_less (a ∷ s) [] = false
text_less (a ∷ s) (b ∷ t) = ltb a b || (a == b && text_less s t)

module _ {A : Type 0} (key : A → Text) where
  insert_by : A → List A → List A
  unfolding text_less
  insert_by x [] = x ∷ []
  insert_by x (y ∷ ys) =
      let rest = insert_by x ys in if text_less (key y) (key x) then y ∷ rest else x ∷ y ∷ ys

  -- sort.Strings and sort.Slice, by a key.
  unfoldable pub sort_by : List A → List A
  unfolding insert_by
  sort_by [] = []
  sort_by (x ∷ xs) = insert_by x (sort_by xs)

unfoldable pub sorted_label_names : Labels → List Text
unfolding sort_by
sorted_label_names labels = sort_by (λ name. name) (map (λ l. l.0) labels)

-- labels[key]
unfoldable pub label_value : Text → Labels → Text
label_value key [] = []
label_value key ((name, value) ∷ labels) =
    let rest = label_value key labels in if same_text name key then value else rest

-- strings.Join(parts, "\x00")
unfoldable pub join : List Text → Text
join [] = []
join (s ∷ []) = s
join (s ∷ t ∷ ts) = s ++ 0 ∷ join (t ∷ ts)

unfoldable key_parts : Labels → List Text → List Text
unfolding label_value
key_parts labels [] = []
key_parts labels (key ∷ keys) = key ∷ label_value key labels ∷ key_parts labels keys

unfoldable pub metric_key : Text → Labels → Text
unfolding sorted_label_names key_parts join
metric_key name labels = join (name ∷ key_parts labels (sorted_label_names labels))

abbrev pub allowed_names : List Text
allowed_names =
    codes "attempts"
    ∷ codes "eventType"
    ∷ codes "identityType"
    ∷ codes "kind"
    ∷ codes "middleware"
    ∷ codes "outcome"
    ∷ codes "queue"
    ∷ codes "reason"
    ∷ codes "status"
    ∷ []

unfoldable pub keep_label : Labels → Text → Text → Labels
keep_label out key value =
    if any (same_text key) allowed_names && not (is_empty (trim_space value))
    then out ++ (key, trim_space value) ∷ []
    else out

-- The loop over the labels, which stops at nine.
unfoldable pub allowed_from : Labels → Labels → Labels
unfolding keep_label
allowed_from out [] = out
allowed_from out ((key, value) ∷ labels) =
    let kept = keep_label out key value in
    let rest = allowed_from kept labels in if length kept == 9 then kept else rest

unfoldable pub allowed_labels : Labels → Labels
unfolding allowed_from
allowed_labels labels = allowed_from [] labels

-- What the recorder does with a float64; a duration becomes one by Seconds.
pub record Arithmetic (F : Type 0) : Type 0 where
  pub less : F → F → Bool
  pub plus : F → F → F
  pub zero : F
  pub one : F
  pub seconds : (duration : ℤ) → F
  pub float64 : ℤ → F

-- metricPoint
pub record Point (F : Type 0) : Type 0 where
  pub name : Text
  pub labels : Labels
  pub min : F
  pub max : F
  pub sum : F
  pub count : ℕ
  pub observed : Bool

abbrev pub Points : Type 0 → Type 0
Points F = List (Text × Point F)

module _ {F : Type 0} (a : Arithmetic F) where
  abbrev pub zero_point : Point F
  zero_point = record {
    name = [];
    labels = [];
    min = a.zero;
    max = a.zero;
    sum = a.zero;
    count = 0;
    observed = false;
  }

  -- points[key]
  unfoldable pub point_at : Text → Points F → Point F
  point_at key [] = zero_point
  point_at key ((k, p) ∷ points) =
      let rest = point_at key points in if same_text k key then p else rest

  -- The point with one more value.
  unfoldable pub absorb : (name : Text) → Labels → F → Point F → Point F
  absorb name labels value p =
      let fresh = record zero_point {
        name = name;
        labels = labels;
        min = value;
        max = value;
        observed = true;
      } in
      let q = if p.observed then p else fresh in
      record q {
        min = if a.less value q.min then value else q.min;
        max = if a.less q.max value then value else q.max;
        sum = a.plus q.sum value;
        count = q.count + 1;
      }

unfoldable pub put_point : {F : Type 0} → Text → Point F → Points F → Points F
put_point key p [] = (key, p) ∷ []
put_point key p ((k, q) ∷ points) =
    let rest = put_point key p points in if same_text k key then (k, p) ∷ points else (k, q) ∷ rest

module _ {F : Type 0} (a : Arithmetic F) where
  unfoldable pub add : (name : Text) → Labels → F → Points F → Points F
  add name labels value points =
      let kept = allowed_labels labels in
      let key = metric_key (trim_space name) kept in
      if is_empty (trim_space name)
      then points
      else put_point key (absorb a (trim_space name) kept value (point_at a key points)) points

  unfoldable pub inc : (name : Text) → Labels → Points F → Points F
  unfolding add
  inc name labels points = add name labels a.one points

  unfoldable pub observe_duration : (name : Text) → (duration : ℤ) → Labels → Points F → Points F
  unfolding add
  observe_duration name duration labels points = add name labels (a.seconds duration) points

  unfoldable pub set_gauge : (name : Text) → (value : ℤ) → Labels → Points F → Points F
  unfolding add
  set_gauge name value labels points = add name labels (a.float64 value) points
