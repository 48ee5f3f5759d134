-- ===== src/Listing/Wanted.antt =====
-- Which tasks a query asks for, written out apart from the code.
use Prim.Native.String
use mathlib.Core.Option
use cocopilot.Prelude.{
  String, ◌≡◌, ◌≢◌, ◌↔◌, refl, ◌⊎◌, inl, inr, Bool, true, false, ◌||◌, Option, none, some, List, [],
  ◌∷◌, arith, str_eq, eq_iff, ap, if◌then◌else◌,
}
use cocopilot.Prelude.Text.{trim_space, is_blank, to_lower}
use cocopilot.Models.{TaskType, TaskStatusV2}
use cocopilot.Models.Texts.{status_v1_text, status_v2_text, task_type_text}
use cocopilot.Dbstore.{TaskRow}
use cocopilot.Dbstore.Tasks.{or}
use cocopilot.Listing.{TaskQuery, Sql, has_status, tags_like, matches}

-- The text stands within quotes in the JSON of the tags; a task without tags has no JSON.
abbrev pub HasTag : Sql → String → List String → Type 0
HasTag sql tag tags =
    (tags ≢ [])
    × (sql.like (String.◌++◌ "%\"" (String.◌++◌ (to_lower tag) "\"%")) (to_lower (sql.json tags))
        ≡ true)

abbrev pub contains : Sql → String → String → Bool
contains sql words text =
    sql.like (String.◌++◌ "%" (String.◌++◌ (to_lower words) "%")) (to_lower text)

-- The status, in the column that the query names.
abbrev pub HasStatus : TaskQuery → TaskRow → Type 0
HasStatus q t =
    ((q.status_column ≡ "status") → status_v1_text t.status ≡ q.status_value)
    × ((q.status_column ≢ "status") → Option.map status_v2_text t.status_v2 ≡ some q.status_value)

-- Each filter that is given holds of the task; a blank one is not given.
pub record IsWanted (sql : Sql) (q : TaskQuery) (t : TaskRow) : Type 0 where
  pub of_project : is_blank q.project_id ≡ false → t.project_id ≡ q.project_id
  pub of_status : q.status_value ≢ "" → HasStatus q t
  pub of_type :
      is_blank q.type_filter ≡ false
      → task_type_text (or t.task_type TaskType.modify) ≡ trim_space q.type_filter
  pub tagged : is_blank q.tag_filter ≡ false → HasTag sql q.tag_filter t.tags
  pub with_words :
      is_blank q.query_filter ≡ false
      → (contains sql q.query_filter t.instructions ≡ true)
        ⊎ (contains sql q.query_filter (or t.title "") ≡ true)

-- A filter that is not given holds.
optional_iff :
    (blank b : Bool) (P : Type 0) → (b ≡ true) ↔ P → ((blank || b) ≡ true) ↔ (blank ≡ false → P)
optional_iff true b P same = ((λ h e. cc), (λ k. refl))
optional_iff false b P same = ((λ h e. same.0 h), (λ k. same.1 (k refl)))

tags_like_iff :
    (sql : Sql) (tag : String) (tags : List String)
    → (tags_like sql tag tags ≡ true) ↔ HasTag sql tag tags
tags_like_iff sql tag [] = ((λ h. cc), (λ h. absurd (h.0 refl)))
tags_like_iff sql tag (t ∷ ts) = ((λ h. ((λ e. cc), h)), (λ h. h.1))

v2_text_iff :
    (o : Option TaskStatusV2) (value : String)
    → ((elim o [ none ↦ false | some s ↦ str_eq (status_v2_text s) value ]) ≡ true)
      ↔ (Option.map status_v2_text o ≡ some value)
v2_text_iff none value = ((λ h. cc), (λ h. cc))
v2_text_iff (some s) value =
    let same = eq_iff (status_v2_text s) value in
    ((λ h. ap some (same.0 h)), (λ h. let e : status_v2_text s ≡ value = cc in same.1 e))

by_column :
    (column v1 v2 : Bool) (C P Q : Type 0)
    → (column ≡ true) ↔ C
    → (v1 ≡ true) ↔ P
    → (v2 ≡ true) ↔ Q
    → ((if column then v1 else v2) ≡ true) ↔ ((C → P) × ((C → ⊥) → Q))
by_column true v1 v2 C P Q c p q =
    ((λ h. ((λ _. p.0 h), (λ no. absurd (no (c.0 refl))))), (λ k. p.1 (k.0 (c.0 refl))))
by_column false v1 v2 C P Q c p q =
    ((λ h. ((λ is. cc (c.1 is)), (λ _. q.0 h))), (λ k. q.1 (k.1 (λ is. cc (c.1 is)))))

if_given :
    (empty b : Bool) (E P : Type 0)
    → (empty ≡ true) ↔ E
    → (b ≡ true) ↔ P
    → ((if empty then true else b) ≡ true) ↔ ((E → ⊥) → P)
if_given true b E P e p = ((λ h no. absurd (no (e.0 refl))), (λ k. refl))
if_given false b E P e p = ((λ h no. p.0 h), (λ k. p.1 (k (λ is. cc (e.1 is)))))

has_status_iff :
    (q : TaskQuery) (t : TaskRow) → (has_status q t ≡ true) ↔ (q.status_value ≢ "" → HasStatus q t)
has_status_iff q t =
    if_given (str_eq q.status_value "") _ (q.status_value ≡ "") (HasStatus q t)
      (eq_iff q.status_value "")
      (by_column (str_eq q.status_column "status") _ _ (q.status_column ≡ "status") _ _
        (eq_iff q.status_column "status") (eq_iff (status_v1_text t.status) q.status_value)
        (v2_text_iff t.status_v2 q.status_value))

either_iff : (a b : Bool) → ((a || b) ≡ true) ↔ ((a ≡ true) ⊎ (b ≡ true))
either_iff true b = ((λ _. inl refl), (λ _. refl))
either_iff false b = ((λ h. inr h), (λ k. elim k [ inl e ↦ cc | inr h ↦ h ]))

pub matches_iff :
    (sql : Sql) (q : TaskQuery) (t : TaskRow) → (matches sql q t ≡ true) ↔ IsWanted sql q t
unfolding matches
matches_iff sql q t =
    let project =
      optional_iff (is_blank q.project_id) (str_eq t.project_id q.project_id) _
        (eq_iff t.project_id q.project_id) in
    let status = has_status_iff q t in
    let kind =
      optional_iff (is_blank q.type_filter)
        (str_eq (task_type_text (or t.task_type TaskType.modify)) (trim_space q.type_filter)) _
        (eq_iff (task_type_text (or t.task_type TaskType.modify)) (trim_space q.type_filter)) in
    let tag =
      optional_iff (is_blank q.tag_filter) (tags_like sql q.tag_filter t.tags) _
        (tags_like_iff sql q.tag_filter t.tags) in
    let words =
      optional_iff (is_blank q.query_filter)
        (contains sql q.query_filter t.instructions || contains sql q.query_filter (or t.title ""))
        _
        (either_iff (contains sql q.query_filter t.instructions)
          (contains sql q.query_filter (or t.title ""))) in
    (
      (λ h. record {
        of_project = project.0 (ground arith);
        of_status = status.0 (ground arith);
        of_type = kind.0 (ground arith);
        tagged = tag.0 (ground arith);
        with_words = words.0 (ground arith);
      }),
      (λ w.
          let p = project.1 w.of_project in
          let s = status.1 w.of_status in
          let k = kind.1 w.of_type in
          let g = tag.1 w.tagged in let v = words.1 w.with_words in ground arith),
    )
