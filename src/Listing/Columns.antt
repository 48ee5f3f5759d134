-- ===== src/Listing/Columns.antt =====
-- Which directions and columns a query may name, written out apart from the code.
use cocopilot.Prelude.{
  ℕ, String, ◌≡◌, ◌≢◌, ◌↔◌, refl, ◌⊎◌, inl, inr, Bool, true, false, none, some, arith, str_eq,
  eq_iff, Bool-cases,
}
use cocopilot.Prelude.Text.{trim_space, to_lower}
use cocopilot.Dbstore.{TaskRow}
use cocopilot.Dbstore.Tasks.{or}
use cocopilot.Listing.{TaskQuery, direction_of, sort_key, valid_column}

-- The direction that the text names: none is ascending.
pub data IsDirection (text : String) : Bool → Type 0 where
  unnamed : to_lower (trim_space text) ≡ "" → IsDirection text false
  ascending : to_lower (trim_space text) ≡ "asc" → IsDirection text false
  descending : to_lower (trim_space text) ≡ "desc" → IsDirection text true

-- The column that the text names: none is the time of creation.
pub data IsKey (text : String) : (TaskRow → ℕ) → Type 0 where
  by_default : to_lower (trim_space text) ≡ "" → IsKey text (λ t. t.created_at)
  by_creation : to_lower (trim_space text) ≡ "created_at" → IsKey text (λ t. t.created_at)
  by_update :
      to_lower (trim_space text) ≡ "updated_at" → IsKey text (λ t. or t.updated_at t.created_at)

direction_named :
    (text : String) (d : Bool)
    → IsDirection text d
    → let name = to_lower (trim_space text) in (name ≡ "") ⊎ ((name ≡ "asc") ⊎ (name ≡ "desc"))
direction_named text d (IsDirection.unnamed e) = inl e
direction_named text d (IsDirection.ascending e) = inr (inl e)
direction_named text d (IsDirection.descending e) = inr (inr e)

key_named :
    (text : String) (key : TaskRow → ℕ)
    → IsKey text key
    → let name = to_lower (trim_space text) in
      (name ≡ "") ⊎ ((name ≡ "created_at") ⊎ (name ≡ "updated_at"))
key_named text key (IsKey.by_default e) = inl e
key_named text key (IsKey.by_creation e) = inr (inl e)
key_named text key (IsKey.by_update e) = inr (inr e)

-- The direction is recognised, or it is none.
pub direction_of-cases :
    (text : String)
    → ((direction_of text ≡ none) × ((d : Bool) → IsDirection text d → ⊥))
      ⊎ ((d : Bool) × (direction_of text ≡ some d) × IsDirection text d)
direction_of-cases text =
    let name = to_lower (trim_space text) in
    let empty = eq_iff name "" in
    let asc = eq_iff name "asc" in
    let desc = eq_iff name "desc" in
    elim (Bool-cases (str_eq name "")) [
      | inl e ↦ inr (false, ground (arith, e), IsDirection.unnamed (empty.0 e))
      | inr not_empty ↦ elim (Bool-cases (str_eq name "asc")) [
        | inl a ↦ inr (false, ground (arith, not_empty, a), IsDirection.ascending (asc.0 a))
        | inr not_asc ↦ elim (Bool-cases (str_eq name "desc")) [
          | inl d ↦
              inr (true, ground (arith, not_empty, not_asc, d), IsDirection.descending (desc.0 d))
          | inr not_desc ↦ inl (
            ground (arith, not_empty, not_asc, not_desc),
            λ d is. elim (direction_named text d is) [
              | inl e ↦ cc (empty.1 e)
              | inr (inl e) ↦ cc (asc.1 e)
              | inr (inr e) ↦ cc (desc.1 e)
            ],
          )
        ]
      ]
    ]

-- The column is recognised, or it is none.
pub sort_key-cases :
    (text : String)
    → ((sort_key text ≡ none) × ((key : TaskRow → ℕ) → IsKey text key → ⊥))
      ⊎ ((key : TaskRow → ℕ) × (sort_key text ≡ some key) × IsKey text key)
sort_key-cases text =
    let name = to_lower (trim_space text) in
    let empty = eq_iff name "" in
    let creation = eq_iff name "created_at" in
    let update = eq_iff name "updated_at" in
    elim (Bool-cases (str_eq name "")) [
      | inl e ↦ inr ((λ t. t.created_at), rw e refl, IsKey.by_default (empty.0 e))
      | inr not_empty ↦ elim (Bool-cases (str_eq name "created_at")) [
        | inl c ↦
            inr ((λ t. t.created_at), rw (not_empty, c) refl, IsKey.by_creation (creation.0 c))
        | inr not_creation ↦ elim (Bool-cases (str_eq name "updated_at")) [
          | inl u ↦ inr (
            (λ t. or t.updated_at t.created_at),
            rw (not_empty, not_creation, u) refl,
            IsKey.by_update (update.0 u),
          )
          | inr not_update ↦ inl (
            rw (not_empty, not_creation, not_update) refl,
            λ key is. elim (key_named text key is) [
              | inl e ↦ cc (empty.1 e)
              | inr (inl e) ↦ cc (creation.1 e)
              | inr (inr e) ↦ cc (update.1 e)
            ],
          )
        ]
      ]
    ]

-- A column of the status that there is, where a status is asked for.
abbrev pub HasColumn : TaskQuery → Type 0
HasColumn q = (q.status_value ≢ "") → (q.status_column ≡ "status") ⊎ (q.status_column ≡ "status_v2")

pub valid_column_iff : (q : TaskQuery) → (valid_column q ≡ true) ↔ HasColumn q
valid_column_iff q =
    let empty = eq_iff q.status_value "" in
    let v1 = eq_iff q.status_column "status" in
    let v2 = eq_iff q.status_column "status_v2" in
    elim (Bool-cases (str_eq q.status_value "")) [
      | inl e ↦ ((λ h given. absurd (given (empty.0 e))), (λ k. ground (arith, e)))
      | inr not_empty ↦ (
        (λ h given. elim (Bool-cases (str_eq q.status_column "status")) [
          | inl a ↦ inl (v1.0 a)
          | inr b ↦ inr (v2.0 (ground (arith, not_empty, b, h)))
        ]),
        (λ k. elim (k (λ is. cc (empty.1 is))) [
          | inl a ↦ let a' = v1.1 a in ground (arith, a')
          | inr b ↦ let b' = v2.1 b in ground (arith, b')
        ]),
      )
    ]
