-- ===== src/Examples/Slots.antt =====
-- The theorems on the slots of actors, and on the saved memory of dialogs, at small ones.
use engge.Base.{
  ℕ, ◌+◌, ◌*◌, none, ◌≡◌, ◌≢◌, ◌↔◌, refl, Bool, true, false, some, List, [], ◌∷◌, ◌++◌, Bytes,
  bytes_eq, codes, take, drop, In, arith, ◌==◌,
}
use mathlib.Core.List.{reverse}
use engge.Base.Outcome.{done, fault, Returns}
use engge.Dialog.States.{DialogConditionMode, DialogConditionState}
use engge.Engine.SavedDialogs.{load_dialog, save_dialogs, split_while}
use engge.Engine.SavedDialogs.Keys.{IsReadable}
use engge.Engine.SavedDialogs.RoundTrip.{keys_of, load_dialog-save_dialogs}
use engge.Engine.ActorSlots.{
  Icon, gear, row_top, get_offset_y, ActorIconSlot, ActorIcons, Mouse, actor_icon, is_enabled, draw,
  update, select_next_actor, select_previous_actor, get_current_actor_index,
}
use engge.Engine.ActorSlots.Next.{first_selectable, select_next_actor-first}
use engge.Engine.ActorSlots.Previous.{select_previous_actor-first}
use engge.Engine.ActorSlots.Icons.{icon_call, update-drawn}

abbrev slot : Bool → ℕ → ActorIconSlot
slot selectable actor = record { selectable = selectable; actor = some actor }

abbrev six : List ActorIconSlot
six = slot true 10 ∷ slot true 11 ∷ slot false 12 ∷ slot true 13 ∷ slot true 14 ∷ slot true 15 ∷ []

index_of_11 : get_current_actor_index (some 11) six ≡ some 1
unfolding get_current_actor_index
index_of_11 = refl

index_of_10 : get_current_actor_index (some 10) six ≡ some 0
unfolding get_current_actor_index
index_of_10 = refl

select_next_actor-first_example :
    select_next_actor (some 11) six ≡ done (first_selectable (drop 2 six ++ take 1 six))
select_next_actor-first_example = select_next_actor-first (some 11) six index_of_11

select_previous_actor-first_example :
    select_previous_actor (some 10) six
    ≡ done (first_selectable (reverse (take 0 six) ++ reverse (drop 1 (take 5 six))))
select_previous_actor-first_example =
    select_previous_actor-first (some 10) six index_of_10 (omega arith)

-- The actor in the last slot can be selected, and is passed over.
previous_of_first : select_previous_actor (some 10) six ≡ done (some (some 14))
unfolding select_previous_actor
previous_of_first = refl

-- The icons have slid out half of the way.
abbrev column : ActorIcons
column = record {
  mode = 1;
  is_inside = true;
  is_mouse_button_pressed = true;
  clock = 125000;
  position = 125000;
}

abbrev on_second : Mouse
on_second = record {
  in_column = λ n. true;
  on_icon = λ j. j == 2;
  is_down = false;
  elapsed = 16000;
}

abbrev drawn_column : List (Icon × ℕ)
drawn_column =
    (actor_icon (some 10), 31 * 125000)
    ∷ (actor_icon (some 11), 91 * 125000)
    ∷ (actor_icon (some 13), 151 * 125000)
    ∷ (actor_icon (some 14), 211 * 125000)
    ∷ (actor_icon (some 15), 271 * 125000)
    ∷ (gear, 331 * 125000)
    ∷ []

column_drawn : draw (λ a. true) (some 10) six column ≡ done drawn_column
unfolding draw get_offset_y
column_drawn = refl

-- No actor is the current one, and a slot has none either.
no_actor_drawn :
    draw (λ a. true) none (record { selectable = false; actor = none } ∷ six) column ≡ fault
unfolding draw
no_actor_drawn = refl

update-drawn_example :
    (151 * 125000 ≡ (row_top 2 + 27) * 125000)
    × ((update (λ a. true) on_second (some 10) six column).0
        ≡ icon_call (is_enabled 1) (some (actor_icon (some 13))))
    × ((update (λ a. true) on_second (some 10) six column).1.is_mouse_button_pressed ≡ false)
update-drawn_example =
    update-drawn (λ a. true) on_second (some 10) six column drawn_column 1 (actor_icon (some 13))
      (151 * 125000) refl refl (λ j. refl) column_drawn refl

-- The settings have the dialog "Chet", and the state is that of a choice on its line 14.
abbrev has_chet : Bytes → Bool
has_chet name = bytes_eq name (codes "Chet.byack")

abbrev chosen : DialogConditionState
chosen = record {
  mode = DialogConditionMode.once;
  actor_key = codes "reyes";
  dialog = codes "Chet";
  line = 14;
}

chosen-IsReadable : IsReadable has_chet chosen
unfolding bytes_eq split_while
chosen-IsReadable = record {
  small_line = omega arith;
  key_stops = refl;
  is_entry = refl;
  no_shorter = λ n h l. absurd (omega arith);
}

chosen_saved : keys_of (chosen ∷ []) ≡ codes "?Chet14reyes" ∷ []
unfolding save_dialogs
chosen_saved = refl

load_dialog-save_dialogs_example :
    Returns
      (λ loaded.
        (s : DialogConditionState)
        → In s loaded ↔ (In s (chosen ∷ []) × (s.mode ≢ DialogConditionMode.temp_once)))
      (load_dialog has_chet (keys_of (chosen ∷ [])))
load_dialog-save_dialogs_example =
    load_dialog-save_dialogs has_chet (chosen ∷ []) (keys_of (chosen ∷ [])) (chosen-IsReadable, tt)
      (λ key. (λ i. i, λ i. i))
