-- ===== src/Examples/Witnesses.antt =====
-- The theorems at concrete inputs.
use engge.Base.{◌+◌, take, ◌-◌, ◌≡◌, refl, inl, some, [], ◌∷◌, bytes_eq, codes, length, arith}
use engge.Base.Outcome.{done, Returns, Safe, ◌>>=◌}
use engge.Dialog.Player.State.{new}
use engge.Dialog.Player.Memory.{accept_conditions, is_show_once}
use engge.Dialog.Player.Loop.{after_run, round, as_choice}
use engge.Dialog.Player.Choices.{slot_of}
use engge.Dialog.Player.Flow.{find_last, select_label, start}
use engge.Dialog.Player.Playable.{IsPlayable, Rests}
use engge.Dialog.Player.Safety.{select_label-Rests}
use engge.Dialog.Player.Forward.{IsForward}
use engge.Dialog.Player.Calls.{
  chooses, updates, make_all, IsReady, start-make_all-IsReady, start-make_all-Returns,
}
use engge.Dialog.Player.Conditions.{round_shown_once}
use engge.Parsers.Tokens.{TokenId, read_token, read_token_at, text_of}
use engge.Parsers.Reads.{Spans, read_token-Spans}
use engge.Parsers.Savegame.{full_size, buffer, save_game, load_game}
use engge.Parsers.Savegame.Files.{load_game-save_game}
use engge.Util.BteaCrypto.{encrypt, decrypt}
use engge.Util.BteaCrypto.RoundTrip.{decrypt-encrypt}
use engge.Examples.Scripts.{hello_once, talk, load_talk, fresh, loaded, reader_of}

pub talk-IsPlayable : IsPlayable talk
unfolding slot_of
talk-IsPlayable = ((tt, (tt, ((0, refl, omega arith), tt))), ((tt, tt), ((tt, tt), tt)))

start-make_all-IsReady_example : Safe (IsReady talk) (
    start 9 load_talk (codes "ray") (codes "talk") (codes "main") fresh
    >>= make_all 9 (updates ∷ updates ∷ updates ∷ updates ∷ chooses 1 ∷ []))
unfolding bytes_eq
start-make_all-IsReady_example =
    start-make_all-IsReady talk-IsPlayable 9 load_talk (codes "ray") (codes "talk") (codes "main")
      (updates ∷ updates ∷ updates ∷ updates ∷ chooses 1 ∷ []) fresh refl

pub talk-IsForward : IsForward talk
unfolding find_last bytes_eq
talk-IsForward = ((tt, (tt, (tt, tt))), ((omega arith, tt), ((tt, tt), tt)))

start-make_all-Returns_example : Returns (IsReady talk) (
    start 9 load_talk (codes "ray") (codes "talk") (codes "main") fresh
    >>= make_all 9 (updates ∷ updates ∷ updates ∷ updates ∷ chooses 1 ∷ updates ∷ []))
unfolding bytes_eq
start-make_all-Returns_example =
    start-make_all-Returns talk-IsPlayable 9 load_talk (codes "ray") (codes "talk") (codes "main")
      (updates ∷ updates ∷ updates ∷ updates ∷ chooses 1 ∷ updates ∷ []) fresh talk-IsForward
      (omega arith) refl

select_label-Rests_example : Safe (Rests talk) (select_label 9 (codes "main") loaded)
select_label-Rests_example = select_label-Rests talk-IsPlayable 9 (codes "main") loaded refl

round_shown_once_example :
    round (select_label 9) 3 hello_once loaded
    ≡ after_run (accept_conditions hello_once (accept_conditions hello_once loaded).1).1
unfolding accept_conditions as_choice is_show_once new
round_shown_once_example =
    round_shown_once (select_label 9) 3 3 hello_once loaded (inl (inl refl)) refl refl refl

decrypt-encrypt_example :
    decrypt (1 ∷ 2 ∷ 3 ∷ 4 ∷ []) (encrypt (1 ∷ 2 ∷ 3 ∷ 4 ∷ []) (5 ∷ 6 ∷ 7 ∷ [])) ≡ 5 ∷ 6 ∷ 7 ∷ []
decrypt-encrypt_example =
    decrypt-encrypt (1 ∷ 2 ∷ 3 ∷ 4 ∷ []) (5 ∷ 6 ∷ 7 ∷ [])
      (omega arith, (omega arith, (omega arith, tt)))

read_token-Spans_example :
    Spans
      (reader_of (codes " :ab "))
      (record { id = TokenId.colon; start = 1; end = 2 })
      (record (reader_of (codes " :ab ")) { stream = record { input = codes " :ab "; offset = 2 } })
    × (length (text_of (record { id = TokenId.colon; start = 1; end = 2 }) (codes " :ab ")) ≡ 2 - 1)
unfolding read_token read_token_at
read_token-Spans_example = read_token-Spans (reader_of (codes " :ab ")) _ _ (omega arith) refl

load_game-save_game_example :
    (load_game (save_game (1 ∷ 2 ∷ 255 ∷ []) 7)
      ≡ done (some (buffer full_size (1 ∷ 2 ∷ 255 ∷ []) 7)))
    × (take 3 (buffer full_size (1 ∷ 2 ∷ 255 ∷ []) 7) ≡ 1 ∷ 2 ∷ 255 ∷ [])
    × (length (save_game (1 ∷ 2 ∷ 255 ∷ []) 7) ≡ full_size + 16)
load_game-save_game_example =
    load_game-save_game (1 ∷ 2 ∷ 255 ∷ []) 7 (omega arith, (omega arith, (omega arith, tt)))
      (omega arith)
