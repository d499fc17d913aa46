-- ===== src/Moderation/Reversal/Undone.antt =====
-- What a reversal undoes.
use chiliztv_com.Base.{
  ℕ, Bool, true, false, Option, none, some, List, [], ◌∷◌, ◌≡◌, ◌∙◌, ap, sym, refl, inl, inr,
  String, str_eq, Text, text_eq, Option-cases, throws, filter, map, update_where, Among, Bool-cases,
  ◌&&◌, eq_iff, if◌then◌else◌, arith,
}
use chiliztv_com.Moderation.Actions.{
  soft_delete_message, ReportAction, reverse, reversed, unreversed, MessageRow, restore_message,
  soft_delete_message_row, removed, restored, is_by,
}
use chiliztv_com.Moderation.World.{conflict_error}
use chiliztv_com.Moderation.Reversal.{Docket, to_restore, restore_if, after_reverse, reverse_action}

module _ {A : Type 0} where
  filter_updated :
      (p : A → Bool) (f : A → A) (xs : List A)
      → ((a : A) → p (f a) ≡ false)
      → filter p (update_where p f xs) ≡ []
  filter_updated p f [] h = refl
  filter_updated p f (x ∷ xs) h = elim (Bool-cases (p x)) [
    | inl e ↦ rw (e, h x) (filter_updated p f xs h)
    | inr e ↦ rw (e, e) (filter_updated p f xs h)
  ]

  update_updated :
      (p : A → Bool) (f g : A → A) (xs : List A)
      → ((a : A) → p (f a) ≡ false)
      → update_where p g (update_where p f xs) ≡ update_where p f xs
  update_updated p f g [] h = refl
  update_updated p f g (x ∷ xs) h = elim (Bool-cases (p x)) [
    | inl e ↦ rw (e, h x, update_updated p f g xs h) refl
    | inr e ↦ rw (e, e, update_updated p f g xs h) refl
  ]

  -- The second change takes the first back, row by row.
  update_back :
      (p q : A → Bool) (f g : A → A) (xs : List A)
      → ((a : A)
          → Among a xs
          → (if q (if p a then f a else a)
              then g (if p a then f a else a)
              else (if p a then f a else a))
            ≡ a)
      → update_where q g (update_where p f xs) ≡ xs
  update_back p q f g [] h = refl
  update_back p q f g (x ∷ xs) h =
      rw (h x (inl refl), update_back p q f g xs (λ a m. h a (inr m))) refl

reversed-closed :
    (id : String) (actor : Text) (reason : Option String) (at : ℕ) (row : ReportAction)
    → (str_eq (reversed actor reason at row).id id
        && unreversed (reversed actor reason at row).reversed_at)
      ≡ false
reversed-closed id actor reason at row = ground arith

reverse_twice :
    (id : String) (actor other : Text) (reason later_note : Option String) (at later : ℕ)
    (rows : List ReportAction)
    → reverse id other later_note later (reverse id actor reason at rows).1
      ≡ ([], (reverse id actor reason at rows).1)
unfolding reverse
reverse_twice id actor other reason later_note at later rows =
    rw
      (
        filter_updated (λ row. str_eq row.id id && unreversed row.reversed_at)
            (reversed actor reason at) rows (reversed-closed id actor reason at),
        update_updated (λ row. str_eq row.id id && unreversed row.reversed_at)
            (reversed actor reason at) (reversed other later_note later) rows
            (reversed-closed id actor reason at),
      )
      refl

after_reverse-actions :
    (audits : Bool) (id : String) (answer : List ReportAction × List ReportAction) (docket : Docket)
    → (after_reverse audits id answer docket).1.actions ≡ answer.1
unfolding after_reverse
after_reverse-actions audits id ([], rows) docket = refl
after_reverse-actions true id (row ∷ _, rows) docket = refl
after_reverse-actions false id (row ∷ _, rows) docket = refl

-- Once an action was reversed, or found to be so, each later reversal of it is refused as a conflict
-- and changes nothing, whoever asks and when, and whether or not the audit trail takes the entries.
reverse_action_once :
    (audits audits_later : Bool) (actor other : Text) (id : String)
    (reason later_note : Option String) (at later : ℕ) (docket : Docket)
    → reverse_action audits_later other id later_note later
        (reverse_action audits actor id reason at docket).1
      ≡ (throws conflict_error, (reverse_action audits actor id reason at docket).1)
unfolding reverse_action after_reverse
reverse_action_once audits audits_later actor other id reason later_note at later docket =
    let answer = reverse id actor reason at docket.actions in
    rw
      (
        after_reverse-actions audits id answer docket,
        reverse_twice id actor other reason later_note at later docket.actions,
      )
      (ap
        (λ rows. (
          throws conflict_error,
          record (after_reverse audits id answer docket).1 { actions = rows },
        ))
        (sym (after_reverse-actions audits id answer docket)))

-- The rows of the message: none was removed by the action, and one that was not removed names none.
abbrev pub Untouched : Text → String → List MessageRow → Type 0
Untouched id action_id rows =
    (row : MessageRow)
    → Among row rows
    → (text_eq row.id id ≡ true)
    → (is_by action_id row.removed_by_action_id ≡ false)
      × ((row.removed_at ≡ none) → (row.removed_by_action_id ≡ none))

str_eq_refl : (s : String) → str_eq s s ≡ true
str_eq_refl s = (eq_iff s s).1 refl

undone_row :
    (id : Text) (action_id : String) (at : ℕ) (row : MessageRow)
    → ((text_eq row.id id ≡ true)
        → (is_by action_id row.removed_by_action_id ≡ false)
          × ((row.removed_at ≡ none) → (row.removed_by_action_id ≡ none)))
    → (let taken =
          if text_eq row.id id && unreversed row.removed_at
          then removed action_id at row
          else row in
        if text_eq taken.id id && is_by action_id taken.removed_by_action_id
        then restored taken
        else taken)
      ≡ row
unfolding removed
undone_row id action_id at row h = elim (Bool-cases (text_eq row.id id)) [
  | inr e ↦ rw (e, e) refl
  | inl e ↦
      (let (foreign, blank) = h e in
        elim (Option-cases row.removed_at) [
          | inl o ↦
              rw (e, o, e, str_eq_refl action_id)
                (ap (λ y. record row { removed_at = none; removed_by_action_id = y })
                  (sym (blank o)))
          | inr (t, o) ↦ rw (e, o, e, foreign) refl
        ])
]

restore-soft_delete :
    (id : Text) (action_id : String) (at : ℕ) (rows : List MessageRow)
    → Untouched id action_id rows
    → restore_message id action_id (soft_delete_message_row id action_id at rows) ≡ rows
unfolding restore_message soft_delete_message_row
restore-soft_delete id action_id at rows h =
    update_back (λ row. text_eq row.id id && unreversed row.removed_at)
      (λ row. text_eq row.id id && is_by action_id row.removed_by_action_id) (removed action_id at)
      restored rows (λ row m. undone_row id action_id at row (h row m))

after_reverse-messages :
    (audits : Bool) (id : String) (row : ReportAction) (rest rows : List ReportAction)
    (docket : Docket)
    → (after_reverse audits id (row ∷ rest, rows) docket).1.messages
      ≡ restore_if (to_restore row.kind row.affected_message_id) id docket.messages
unfolding after_reverse
after_reverse-messages true id row rest rows docket = refl
after_reverse-messages false id row rest rows docket = refl

-- The reversal of the removal of a message takes the removal back: if the action on file is unreversed
-- and names the message, the table of messages is again the one before the removal, provided that no
-- row of the message was removed by this action already, and that one which was not removed names no
-- action. It holds also when the audit trail then fails.
pub reverse_action_restores :
    (audits : Bool) (actor : Text) (id : String) (reason : Option String) (at removed_at c : ℕ)
    (message : Text) (row : ReportAction) (rest : List ReportAction) (docket : Docket)
    → filter (λ action. str_eq action.id id && unreversed action.reversed_at) docket.actions
      ≡ row ∷ rest
    → row.kind ≡ soft_delete_message
    → row.affected_message_id ≡ some (c ∷ message)
    → Untouched (c ∷ message) id docket.messages
    → (reverse_action audits actor id reason at (record docket {
      messages = soft_delete_message_row (c ∷ message) id removed_at docket.messages;
    })).1.messages
      ≡ docket.messages
unfolding reverse_action reverse restore_if
reverse_action_restores audits actor id reason at removed_at c message row rest docket on_file kind
      names untouched =
    rw on_file (
      after_reverse-messages audits id (reversed actor reason at row)
        (map (reversed actor reason at) rest) _ _
      ∙ (rw (kind, names)
          (restore-soft_delete (c ∷ message) id removed_at docket.messages untouched)))
