-- ===== src/Moderation/Actions/OneUnreversed.antt =====
-- The invariant of the table of actions: ids are unique, and a target has one unreversed action at
-- most; and what is found active on a target.
use chiliztv_com.Moderation.Rows.{single_ok, single_iff, QueryError}
use chiliztv_com.Base.{
  none, inr, throws, inl, Among-filter, filter, filter_single, Bool-cases, Among, ◌⊎◌, some, Result,
  ok, sym, ◌∙◌, ℕ, Bool, true, false, Option, List, [], ◌∷◌, ◌≡◌, ◌≢◌, refl, ◌↔◌, arith, eq_iff,
  text_eq_iff, All, Pairwise, any, ◌&&◌,
}
use chiliztv_com.Moderation.Reports.{
  StoreError, Target, TargetType, stream, message, account, same_type, same_context, same_target,
}
use chiliztv_com.Moderation.Actions.{
  existing_or_error, save_action, find_active_for_target, ReportAction, action_target, unreversed,
  doubles,
}

same_type_iff : (a b : TargetType) → (same_type a b ≡ true) ↔ (a ≡ b)
unfolding same_type
same_type_iff stream stream = ((λ h. refl), (λ h. refl))
same_type_iff stream message = ((λ h. cc), (λ h. cc))
same_type_iff stream account = ((λ h. cc), (λ h. cc))
same_type_iff message stream = ((λ h. cc), (λ h. cc))
same_type_iff message message = ((λ h. refl), (λ h. refl))
same_type_iff message account = ((λ h. cc), (λ h. cc))
same_type_iff account stream = ((λ h. cc), (λ h. cc))
same_type_iff account message = ((λ h. cc), (λ h. cc))
same_type_iff account account = ((λ h. refl), (λ h. refl))

same_context_iff : (a b : Option ℕ) → (same_context a b ≡ true) ↔ (a ≡ b)
unfolding same_context
same_context_iff a b = ground arith

-- Targets are compared by all three of their parts.
pub same_target_iff : (a b : Target) → (same_target a b ≡ true) ↔ (a ≡ b)
unfolding same_target
same_target_iff a b = ground (
  arith,
  same_type_iff a.target_type b.target_type,
  text_eq_iff a.target_id b.target_id,
  same_context_iff a.live_context_match_id b.live_context_match_id,
)

abbrev is_live_on : Target → ReportAction → Bool
is_live_on target row = same_target (action_target row) target && unreversed row.reversed_at

-- Two rows that may stand beside each other.
abbrev Exclusive : ReportAction → ReportAction → Type 0
Exclusive a b =
    (a.id ≢ b.id)
    × ((unreversed a.reversed_at ≡ false)
        ⊎ ((unreversed b.reversed_at ≡ false) ⊎ (action_target b ≢ action_target a)))

abbrev pub IsRegister : List ReportAction → Type 0
IsRegister rows = Pairwise Exclusive rows

doubles_iff : (a b : ReportAction) → (doubles a b ≡ false) ↔ Exclusive a b
doubles_iff a b =
    ground (arith, eq_iff a.id b.id, same_target_iff (action_target b) (action_target a))

doubles-All :
    (action : ReportAction) (rows : List ReportAction)
    → (any (doubles action) rows ≡ false) ↔ All (Exclusive action) rows
doubles-All action [] = ((λ _. tt), (λ _. refl))
doubles-All action (row ∷ rows) = ground (arith, doubles_iff action row, doubles-All action rows)

live_clash :
    (t : Target) (a b : ReportAction)
    → is_live_on t a ≡ true
    → is_live_on t b ≡ true
    → ¬ Exclusive a b
live_clash t a b h k (ids, targets) =
    let on_a : action_target a ≡ t = (same_target_iff (action_target a) t).0 (ground arith) in
    let on_b : action_target b ≡ t = (same_target_iff (action_target b) t).0 (ground arith) in
    elim targets [
      | inl x ↦ ground arith
      | inr (inl y) ↦ ground arith
      | inr (inr differ) ↦ differ (on_b ∙ sym on_a)
    ]

is_live_iff :
    (t : Target) (a : ReportAction)
    → (is_live_on t a ≡ true) ↔ ((action_target a ≡ t) × (unreversed a.reversed_at ≡ true))
is_live_iff t a = ground (arith, same_target_iff (action_target a) t)

-- On a table that keeps the invariant the lookup of the active action always answers, with the one
-- unreversed row of the target, if there is one.
find_active_iff :
    (t : Target) (rows : List ReportAction) (a : ReportAction)
    → IsRegister rows
    → ((o : Option ReportAction) × (find_active_for_target t rows ≡ ok o))
      × ((find_active_for_target t rows ≡ ok (some a))
          ↔ (Among a rows × (action_target a ≡ t) × (unreversed a.reversed_at ≡ true)))
unfolding find_active_for_target
find_active_iff t rows a r =
    let one = filter_single Exclusive (is_live_on t) rows (live_clash t) r in
    let found = single_iff (filter (is_live_on t) rows) a one in
    let kept = Among-filter (is_live_on t) rows a in
    (
      single_ok (filter (is_live_on t) rows) one,
      (
        (λ e.
            let (m, h) = kept.0 (found.0 e) in
            (m, ((is_live_iff t a).0 h).0, ((is_live_iff t a).0 h).1)),
        (λ (m, w, u). found.1 (kept.1 (m, (is_live_iff t a).1 (w, u)))),
      ),
    )

existing_as :
    (rows : List ReportAction) (r : Result QueryError (Option ReportAction)) (stored : ReportAction)
    (after : List ReportAction)
    → existing_or_error rows r ≡ ok (stored, after)
    → (r ≡ ok (some stored)) × (after ≡ rows)
unfolding existing_or_error
existing_as rows (ok (some a)) stored after e = (cc e, cc e)
existing_as rows (ok none) stored after e = absurd (cc e)
existing_as rows (throws q) stored after e = absurd (cc e)

fresh_as :
    (action : ReportAction) (rows : List ReportAction) (stored : ReportAction)
    (after : List ReportAction)
    → ◌≡◌ {A = Result StoreError (ReportAction × List ReportAction)}
        (ok (action, action ∷ rows))
        (ok (stored, after))
    → (stored ≡ action) × (after ≡ action ∷ rows)
fresh_as action rows stored after e = (cc e, cc e)

-- A save that succeeds leaves one unreversed action on the target, the one it returns: the new one, or
-- the one that was on file.
pub save_action_lem :
    (action stored : ReportAction) (rows after : List ReportAction)
    → IsRegister rows
    → unreversed action.reversed_at ≡ true
    → save_action action rows ≡ ok (stored, after)
    → IsRegister after
      × (find_active_for_target (action_target action) after ≡ ok (some stored))
      × (((stored ≡ action) × (after ≡ action ∷ rows)) ⊎ (after ≡ rows))
unfolding save_action
save_action_lem action stored rows after r u e = elim (Bool-cases (any (doubles action) rows)) [
  | inl d ↦
      let (found, same) =
        existing_as rows (find_active_for_target (action_target action) rows) stored after
          (rw d at e) in
      rw same (r, found, inr refl)
  | inr d ↦
      let (is_stored, is_after) = fresh_as action rows stored after (rw d at e) in
      let register : IsRegister (action ∷ rows) = ((doubles-All action rows).0 d, r) in
      rw (is_stored, is_after)
        (
          register,
          (find_active_iff (action_target action) (action ∷ rows) action register).1.1
              (inl refl, refl, u),
          inl (refl, refl),
        )
]
